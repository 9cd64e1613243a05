-- ===== src/Server/Stats/Tests.antt =====
-- The statistics of one request.
use operating_systems_course.Prelude.{◌≡◌, refl, arith}
use operating_systems_course.Server.Run.{Timeval}
use operating_systems_course.Server.Stats.{
  ThreadsStats, TimeStats, codes, digits, decimal, zeros, decimal_06, time,
}
use operating_systems_course.Server.Stats.Length.{Fits}

abbrev pub counts : ThreadsStats
counts = record { id = 2; stat_req = 1; dynm_req = 0; post_req = 0; total_req = 1 }

abbrev moment : Timeval
moment = record { tv_sec = 17; tv_usec = 305 }

abbrev pub times : TimeStats
times = record {
  task_arrival = moment;
  task_dispatch = moment;
  log_enter = moment;
  log_exit = moment;
}

time_printed : time moment ≡ codes "17.000305"
unfolding time decimal decimal_06 digits zeros
time_printed = refl

pub counts-Fits : Fits counts times
counts-Fits = record {
  id = omega arith;
  stat_req = omega arith;
  dynm_req = omega arith;
  post_req = omega arith;
  total_req = omega arith;
  task_arrival = record { sec = omega arith; usec = omega arith };
  task_dispatch = record { sec = omega arith; usec = omega arith };
  log_enter = record { sec = omega arith; usec = omega arith };
  log_exit = record { sec = omega arith; usec = omega arith };
}
