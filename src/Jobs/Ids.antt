-- ===== src/Jobs/Ids.antt =====
-- `JOB_ID_RE` (backend/app.py).
use certheim.Base.{
  Bool, Text, all, chomp, is_digit, leb, length, nat_eq, option_eq, text_eq, ℕ, ◌&&◌, ◌==◌, ◌||◌,
}

unfoldable pub is_hex : ℕ → Bool
is_hex c = (leb b'a' c && leb c b'f') || is_digit c

-- `JOB_ID_RE.match(job_id)`
unfoldable pub is_job_id : Text → Bool
unfolding is_hex chomp is_digit nat_eq
is_job_id s = length (chomp s) == 32 && all is_hex (chomp s)
