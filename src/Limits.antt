-- ===== src/Limits.antt =====
-- internal/limits/admission.go: the byte-and-record admission controller. The mutex makes each
-- method one atomic step, so a method is a function from the counters to the counters and the
-- result. A nil controller is `none`.
pub mod Bounds
mod Tests
use kafka_rest_proxy_go.Common.{
  ◌≡◌, Bool, true, false, ◌&&◌, ◌||◌, Option, none, some, List, [], ◌∷◌, if◌then◌else◌,
}
use kafka_rest_proxy_go.Common.Int.{ℤ, pos, ltb_ℤ, add64, sub64}

pub record Admission : Type 0 where
  pub max_records : ℤ
  pub max_bytes : ℤ
  pub used_records : ℤ
  pub used_bytes : ℤ

abbrev pub new_admission : ℤ → ℤ → Admission
new_admission max_records max_bytes = record {
  max_records = max_records;
  max_bytes = max_bytes;
  used_records = pos 0;
  used_bytes = pos 0;
}

-- One of the two tests of `TryAcquire`: a limit of zero or less is no limit.
abbrev pub exceeds : ℤ → ℤ → ℤ → Bool
exceeds max used n = ltb_ℤ (pos 0) max && ltb_ℤ max (add64 used n)

unfoldable pub try_acquire : Option Admission → ℤ → ℤ → Option Admission × Bool
try_acquire none records bytes = (none, true)
try_acquire (some a) records bytes =
    if ltb_ℤ records (pos 0) || ltb_ℤ bytes (pos 0)
    then (some a, false)
    else if exceeds a.max_records a.used_records records
    then (some a, false)
    else if exceeds a.max_bytes a.used_bytes bytes
    then (some a, false)
    else (
      some (record a {
        used_records = add64 a.used_records records;
        used_bytes = add64 a.used_bytes bytes;
      }),
      true,
    )

-- A counter after `Release`, which does not fall below zero.
abbrev pub lowered : ℤ → ℤ → ℤ
lowered used n = let left = sub64 used n in if ltb_ℤ left (pos 0) then pos 0 else left

unfoldable pub release : Option Admission → ℤ → ℤ → Option Admission
release none records bytes = none
release (some a) records bytes = some (record a {
  used_records = lowered a.used_records records;
  used_bytes = lowered a.used_bytes bytes;
})

unfoldable pub snapshot : Option Admission → ℤ × ℤ × ℤ × ℤ
snapshot none = (pos 0, pos 0, pos 0, pos 0)
snapshot (some a) = (a.used_records, a.max_records, a.used_bytes, a.max_bytes)

-- A history of calls on one controller.
pub data Call : Type 0 where
  acquires releases : ℤ → ℤ → Call

unfoldable pub step : Option Admission → Call → Option Admission
unfolding try_acquire release
step a (acquires records bytes) = (try_acquire a records bytes).0
step a (releases records bytes) = release a records bytes

pub run : Option Admission → List Call → Option Admission
unfolding step
run a [] = a
run a (c ∷ cs) = run (step a c) cs
