-- ===== src/Server/Stats/Text.antt =====
-- The text of the statistics that request.c and log.c print.
use Prim.Native.String.{String}
use operating_systems_course.Prelude.{ℕ, List, [], ◌∷◌, ◌++◌}
use operating_systems_course.Server.Run.{Timeval}
use operating_systems_course.Server.Stats.{ThreadsStats, TimeStats, codes, decimal, decimal_06}

-- A name and its value, on a line of its own.
unfoldable pub field : String → List ℕ → List ℕ
field name value = codes name ++ (value ++ (13 ∷ (10 ∷ [])))

-- A time in seconds, with six digits behind the point.
unfoldable pub seconds : Timeval → List ℕ
seconds t = decimal t.tv_sec ++ (46 ∷ decimal_06 t.tv_usec)

-- Nine fields, and an empty line.
unfoldable pub stats_text : ThreadsStats → TimeStats → List ℕ
unfolding field seconds
stats_text t tm =
    field "Stat-Req-Arrival:: " (seconds tm.task_arrival)
    ++ (field "Stat-Req-Dispatch:: " (seconds tm.task_dispatch)
        ++ (field "Stat-Log-Arrival:: " (seconds tm.log_enter)
            ++ (field "Stat-Log-Dispatch:: " (seconds tm.log_exit)
                ++ (field "Stat-Thread-Id:: " (decimal t.id)
                    ++ (field "Stat-Thread-Count:: " (decimal t.total_req)
                        ++ (field "Stat-Thread-Static:: " (decimal t.stat_req)
                            ++ (field "Stat-Thread-Dynamic:: " (decimal t.dynm_req)
                                ++ (field "Stat-Thread-Post:: " (decimal t.post_req)
                                    ++ (13 ∷ (10 ∷ []))))))))))
