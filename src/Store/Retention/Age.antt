-- ===== src/Store/Retention/Age.antt =====
-- store.go: the cutoff of `ApplyRetention`.
use lumn.Base.{ℕ, ◌+◌, ◌*◌, ◌≤◌, ◌≡◌, true, arith, ltb}
use lumn.Store.Retention.{day, before_cutoff}

-- Up to 106751 days the cutoff is the one meant: an execution is old when it finished more than that
-- many days ago.
before_cutoff_lem :
    (now max_days finished : ℕ)
    → max_days ≤ 106_751
    → before_cutoff now max_days finished ≡ ltb (finished + max_days * day) now
unfolding before_cutoff
before_cutoff_lem now max_days finished small = ground arith

-- From 106752 days on, up to 213503, the product is negative as an `int64`: the cutoff lies in the
-- future, and every execution that finished by now counts as old.
pub before_cutoff-overflow :
    (now max_days finished : ℕ)
    → 106_752 ≤ max_days
    → max_days ≤ 213_503
    → finished ≤ now
    → before_cutoff now max_days finished ≡ true
unfolding before_cutoff
before_cutoff-overflow now max_days finished lower upper past = ground arith
