-- ===== src/Tests.antt =====
-- Runs on concrete inputs, and the theorems at inputs where their hypotheses hold.
mod Diff
mod Rules
mod Admission
mod Metrics
mod Config
mod Settings
mod Watcher
mod Handler
mod Server
use drift_sentinel.Base.{ℕ, Bool, false, ◌≡◌}
use drift_sentinel.Base.Text.{Unicode}

abbrev none_of : ℕ → Bool
none_of c = false

-- No character above ASCII is a letter, a digit or printable.
instance abbrev pub ascii : Unicode
ascii = record {
  letter = none_of;
  digit = none_of;
  print = none_of;
  letter_not_space = λ c h. cc;
  digit_not_space = λ c h. cc;
}
