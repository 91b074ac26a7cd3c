-- ===== src/Config/Stability.antt =====
-- internal/config/watcher.go, waitForFileStability, and getFileSize of internal/config/utils.go: the wait
-- for a file that is being written.
use quorum_quest.Prelude.{
  ℕ, zero, suc, ℤ, pos, negsuc, ◌+◌, ◌*◌, ◌≤◌, str_eq, Bool, true, false, List, [], ◌∷◌, ◌≡◌, ◌⊎◌,
  arith, if◌then◌else◌, ◌==◌, Option, none, some,
}
use quorum_quest.Config.{System, get_env}

abbrev same_size : ℤ → ℤ → Bool
same_size (pos a) (pos b) = a == b
same_size (negsuc a) (negsuc b) = a == b
same_size _ _ = false

-- `getFileSize`, of what `os.Stat` answers: -1 where it fails.
unfoldable pub get_file_size : Option ℕ → ℤ
get_file_size none = negsuc 0
get_file_size (some size) = pos size

-- The loop, with the rounds that are left: the sleeps it takes, in milliseconds. `stat` gives the size
-- of the file at each look.
unfoldable pub wait_rounds : ℕ → (ℕ → Option ℕ) → ℕ → ℤ → ℕ → List ℕ
unfolding get_file_size
wait_rounds zero stat look last_size backoff = []
wait_rounds (suc retries) stat look last_size backoff =
    let size = get_file_size (stat look) in
    let rest = wait_rounds retries stat (suc look) size (backoff * 2) in
    if same_size size last_size then [] else backoff ∷ rest

unfoldable pub wait_for_file_stability : System → (ℕ → Option ℕ) → List ℕ
unfolding wait_rounds
wait_for_file_stability os stat =
    if str_eq (get_env os "GO_TEST_MODE") "1" then [] else wait_rounds 3 stat 0 (negsuc 0) 50

abbrev pub total : List ℕ → ℕ
total [] = 0
total (n ∷ ns) = n + total ns

abbrev pub count : List ℕ → ℕ
count [] = 0
count (n ∷ ns) = suc (count ns)

-- What the last look of a wait saw, when the wait ends before its rounds do: the size of the look
-- before.
abbrev pub is_settled : (ℕ → Option ℕ) → ℕ → Bool
is_settled stat zero = same_size (get_file_size (stat 0)) (negsuc 0)
is_settled stat (suc n) = same_size (get_file_size (stat (suc n))) (get_file_size (stat n))

-- Unless GO_TEST_MODE is 1, the wait sleeps at most three times and for 350 milliseconds; if it
-- ends before the third sleep, its last two looks saw the same size, or its first look no file.
pub wait_for_file_stability_ends :
    (os : System) (stat : ℕ → Option ℕ)
    → str_eq (get_env os "GO_TEST_MODE") "1" ≡ false
    → let sleeps = wait_for_file_stability os stat in
      (count sleeps ≤ 3)
      × (total sleeps ≤ 350)
      × ((count sleeps ≡ 3) ⊎ (is_settled stat (count sleeps) ≡ true))
unfolding wait_for_file_stability wait_rounds
wait_for_file_stability_ends os stat h = ground arith

-- A file whose size does not change is waited for once, for 50 milliseconds.
pub stable_file_waits_once :
    (os : System) (size : ℕ)
    → str_eq (get_env os "GO_TEST_MODE") "1" ≡ false
    → wait_for_file_stability os (λ look. some size) ≡ 50 ∷ []
unfolding wait_for_file_stability wait_rounds get_file_size
stable_file_waits_once os size h = ground arith
