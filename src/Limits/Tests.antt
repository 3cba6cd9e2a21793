-- ===== src/Limits/Tests.antt =====
-- Tests and instances for the admission controller.
use kafka_rest_proxy_go.Common.{◌+◌, ◌-◌, ◌≡◌, refl, true, false, some, List, [], ◌∷◌, arith}
use kafka_rest_proxy_go.Common.Int.{pos, negsuc, uint64_bound, add64}
use kafka_rest_proxy_go.Limits.{try_acquire, release, Call, acquires, releases, run}
use kafka_rest_proxy_go.Limits.Bounds.{
  Counts, admission, more, try_acquire_exact, release-try_acquire, try_acquire_overflow, Keeps,
  run-Keeps,
}

-- Two of ten records and 30 of 100 bytes are in use.
abbrev busy : Counts
busy = record { limit_records = 10; limit_bytes = 100; records = 2; bytes = 30 }

calls : (try_acquire (some (admission busy)) (pos 8) (pos 70)).1 ≡ true
unfolding try_acquire add64
calls = refl

refused : (try_acquire (some (admission busy)) (pos 9) (pos 1)).1 ≡ false
unfolding try_acquire add64
refused = refl

negative_refused : (try_acquire (some (admission busy)) (negsuc 0) (pos 1)).1 ≡ false
unfolding try_acquire add64
negative_refused = refl

try_acquire_exact_example :
    try_acquire (some (admission busy)) (pos 8) (pos 70) ≡ (some (admission (more busy 8 70)), true)
try_acquire_exact_example = try_acquire_exact busy (pos 8) (pos 70) (omega arith)

release-try_acquire_example :
    release (try_acquire (some (admission busy)) (pos 8) (pos 70)).0 (pos 8) (pos 70)
    ≡ some (admission busy)
release-try_acquire_example = release-try_acquire busy 8 70 (omega arith) calls

-- A sum of bytes that leaves int64.
try_acquire_overflow_example :
    try_acquire (some (admission busy)) (pos 1) (pos 9223372036854775807) ≡ (
      some (record (admission busy) {
        used_records = pos 3;
        used_bytes = negsuc (uint64_bound - 1 - (30 + 9223372036854775807));
      }),
      true,
    )
try_acquire_overflow_example =
    try_acquire_overflow busy 1 9223372036854775807 (omega arith) (omega arith) (omega arith)
      (omega arith)

abbrev history : List Call
history = acquires (pos 8) (pos 70) ∷ acquires (pos 1) (pos 1) ∷ releases (pos 3) (pos 90) ∷ []

run-Keeps_example : Keeps busy (run (some (admission busy)) history)
run-Keeps_example = run-Keeps 20 100 busy history (omega arith) (omega arith) (
  (8, 70, refl, refl, omega arith, omega arith),
  (
    (1, 1, refl, refl, omega arith, omega arith),
    ((3, 90, refl, refl, omega arith, omega arith), tt),
  ),
)
