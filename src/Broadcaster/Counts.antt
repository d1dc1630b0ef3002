-- ===== src/Broadcaster/Counts.antt =====
-- How many reads and writes are in flight, by the type of their request.
use independent_study.Base.{ℕ, List}
use independent_study.Base.Sums.{weigh}
use independent_study.Broadcaster.{OpType, read, write, Flight}

abbrev pub read_weight : OpType → ℕ
read_weight read = 1
read_weight _ = 0

abbrev pub write_weight : OpType → ℕ
write_weight write = 1
write_weight _ = 0

abbrev pub reads : List Flight → ℕ
reads = weigh (λ f. read_weight f.request.type)

abbrev pub writes : List Flight → ℕ
writes = weigh (λ f. write_weight f.request.type)
