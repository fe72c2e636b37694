-- ===== src/Jobs/Keys.antt =====
-- The primary key of the jobs table: how updates and inserts keep it, and which row an id names.
use certheim.Base.{
  All, Bool, Bool-cases, List, Text, [], any, arith, false, find, inl, inr, nat_eq, option_eq, refl,
  some, subst, text_eq, true, update_where, ◌++◌, ◌==◌, ◌||◌, ◌∷◌, ◌≡◌,
}
use certheim.Store.{Job, status_eq}

-- the jobs that `WHERE id = ?` selects
abbrev pub row_with_id : Text → Job → Bool
row_with_id job_id j = j.id == job_id

-- No two rows share an id: the PRIMARY KEY.
abbrev pub IsKeyed : List Job → Type 0
IsKeyed [] = Unit
IsKeyed (j ∷ js) = (any (row_with_id j.id) js ≡ false) × IsKeyed js

any-update_where :
    (p : Job → Bool) (f : Job → Job) (job_id : Text)
    → ((j : Job) → (f j).id ≡ j.id)
    → (js : List Job) → any (row_with_id job_id) (update_where p f js) ≡ any (row_with_id job_id) js
any-update_where p f job_id same [] = refl
any-update_where p f job_id same (j ∷ js) =
    ground (arith, same j, any-update_where p f job_id same js)

pub IsKeyed-update_where :
    (p : Job → Bool) (f : Job → Job)
    → ((j : Job) → (f j).id ≡ j.id)
    → (js : List Job) → IsKeyed js
    → IsKeyed (update_where p f js)
IsKeyed-update_where p f same [] h = tt
IsKeyed-update_where p f same (j ∷ js) h =
    ground (arith, same j, any-update_where p f j.id same js, IsKeyed-update_where p f same js h.1)

any-append_one :
    (job_id : Text) (new : Job) (js : List Job)
    → any (row_with_id job_id) (js ++ new ∷ [])
      ≡ any (row_with_id job_id) js || row_with_id job_id new
any-append_one job_id new [] = ground arith
any-append_one job_id new (j ∷ js) = ground (arith, any-append_one job_id new js)

pub IsKeyed-append :
    (new : Job) (js : List Job)
    → any (row_with_id new.id) js ≡ false
    → IsKeyed js
    → IsKeyed (js ++ new ∷ [])
IsKeyed-append new [] fresh h = (refl, tt)
IsKeyed-append new (j ∷ js) fresh h =
    (ground (arith, any-append_one j.id new js), IsKeyed-append new js (ground arith) h.1)

All-absent :
    (Q : Job → Type 0) (job_id : Text) (js : List Job)
    → any (row_with_id job_id) js ≡ false
    → All (λ j. row_with_id job_id j ≡ true → Q j) js
All-absent Q job_id [] h = tt
All-absent Q job_id (j ∷ js) h =
    (λ hit. absurd (ground arith), All-absent Q job_id js (ground arith))

-- Under the key, the row that an id finds is the only one.
pub All-row_with_id :
    (P : Job → Type 0) (job_id : Text) (row : Job) (js : List Job)
    → IsKeyed js
    → find (row_with_id job_id) js ≡ some row
    → P row
    → All (λ j. row_with_id job_id j ≡ true → P j) js
All-row_with_id P job_id row [] h e p = tt
All-row_with_id P job_id row (j ∷ js) h e p = elim (Bool-cases (row_with_id job_id j)) [
  | inl hit ↦ (
    λ _. let same : row ≡ j = ground arith in subst P same p,
    All-absent P job_id js (ground arith),
  )
  | inr miss ↦ (λ hit. absurd (ground arith), All-row_with_id P job_id row js h.1 (ground arith) p)
]

-- The row that an id finds after an update by id, where the update keeps ids.
pub find-update_row :
    (f : Job → Job) (job_id : Text) (row : Job)
    → ((j : Job) → (f j).id ≡ j.id)
    → (js : List Job) → find (row_with_id job_id) js ≡ some row
    → find (row_with_id job_id) (update_where (row_with_id job_id) f js) ≡ some (f row)
find-update_row f job_id row same [] e = absurd (ground arith)
find-update_row f job_id row same (j ∷ js) e =
    ground (arith, same j, find-update_row f job_id row same js)
