-- ===== src/Redis/Expiry.antt =====
-- What internal/store/redis relies on of Redis, as documented, while the clock runs: the moment at which a
-- key runs out. `deadline s k` is that moment, `moment s` what the clock of the server shows, both in
-- nanoseconds, and `pass n s` is state `s` when it shows `n`.
use quorum_quest.Prelude.{
  ℕ, ℤ, pos, plus, ltb_ℤ, Bool, true, false, String, Option, some, none, ◌≡◌, ◌≢◌, ◌⊎◌, is_positive,
}
use quorum_quest.Program.{Result, ok, err, Server}
use quorum_quest.Redis.{Request, Reply, set_nx, get, del, expire, Error}

-- A SET NX that sets the key sets its deadline, and one that finds it held changes nothing.
abbrev pub SetNxDates : ℤ → Option String → ℤ → ℤ → Result Error Bool → Type 0
SetNxDates next before old new (ok true) = new ≡ next
SetNxDates next before old new r = before ≢ none → new ≡ old

-- An EXPIRE that is answered by 1 sets the deadline; one that fails may have set it.
abbrev pub ExpireDates : ℤ → ℤ → ℤ → Result Error Bool → Type 0
ExpireDates next old new (ok true) = new ≡ next
ExpireDates next old new (ok false) = Unit {0}
ExpireDates next old new (err e) = (new ≡ old) ⊎ (new ≡ next)

module _ (S : Server Request Reply) (value : S.State → String → Option String)
    (deadline : S.State → String → ℤ) (moment : S.State → ℕ) (pass : ℕ → S.State → S.State) where
  pub record IsExpiring : Type 0 where
    -- The clock stands still during a request. A key lives up to its deadline.
    pub on_request : (s : S.State) (r : Request) → moment (S.handle r s).1 ≡ moment s
    pub on_pass : (s : S.State) (n : ℕ) → moment (pass n s) ≡ n
    pub pass_value :
        (s : S.State) (n : ℕ) (k v : String)
        → value s k ≡ some v
        → ltb_ℤ (deadline s k) (pos n) ≡ false
        → value (pass n s) k ≡ some v
    pub pass_deadline : (s : S.State) (n : ℕ) (k : String) → deadline (pass n s) k ≡ deadline s k
    pub set_nx_dates :
        (s : S.State) (k v : String) (d : ℤ)
        → let (r, s') = S.handle (set_nx k v d) s in
          SetNxDates (plus (moment s) d) (value s k) (deadline s k) (deadline s' k) r
    pub get_dates : (s : S.State) (k j : String) → deadline (S.handle (get k) s).1 j ≡ deadline s j
    pub expire_dates :
        (s : S.State) (k : String) (d : ℤ)
        → is_positive d ≡ true
        → let (r, s') = S.handle (expire k d) s in
          ExpireDates (plus (moment s) d) (deadline s k) (deadline s' k) r
    -- No request touches another key.
    pub set_nx_frame :
        (s : S.State) (k v : String) (d : ℤ) (j : String)
        → j ≢ k
        → deadline (S.handle (set_nx k v d) s).1 j ≡ deadline s j
    pub del_frame :
        (s : S.State) (k j : String) → j ≢ k → deadline (S.handle (del k) s).1 j ≡ deadline s j
    pub expire_frame :
        (s : S.State) (k : String) (d : ℤ) (j : String)
        → j ≢ k
        → deadline (S.handle (expire k d) s).1 j ≡ deadline s j
