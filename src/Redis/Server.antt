-- ===== src/Redis/Server.antt =====
-- What internal/store/redis relies on of Redis and go-redis, as documented.
-- `value s k` is what key `k` holds in state `s`: an expired key holds nothing.
use quorum_quest.Prelude.{
  ℤ, is_positive, Bool, true, false, String, ◌≡◌, ◌≢◌, ◌⊎◌, Option, none, some,
}
use quorum_quest.Program.{Result, ok, err, Server}
use quorum_quest.Redis.{Request, Reply, set_nx, get, del, expire, Error, nil, other}

-- What each reply tells of the key before and after the request. A request that fails may have
-- been carried out, or not.
abbrev pub SetNxTells : String → Option String → Option String → Result Error Bool → Type 0
SetNxTells v before after (ok true) = (before ≡ none) × (after ≡ some v)
SetNxTells v before after (ok false) = (before ≢ none) × (after ≡ before)
SetNxTells v before after (err e) = (after ≡ before) ⊎ ((before ≡ none) × (after ≡ some v))

abbrev pub GetTells : Option String → Result Error String → Type 0
GetTells before (ok v) = before ≡ some v
GetTells before (err nil) = before ≡ none
GetTells before (err (other m)) = Unit {0}

abbrev pub DelTells : {A : Type 0} → Option String → Option String → Result Error A → Type 0
DelTells before after (ok n) = after ≡ none
DelTells before after (err e) = (after ≡ before) ⊎ (after ≡ none)

-- EXPIRE with a positive time.
abbrev pub ExpireTells : Option String → Option String → Result Error Bool → Type 0
ExpireTells before after (ok true) = (before ≢ none) × (after ≡ before)
ExpireTells before after (ok false) = (before ≡ none) × (after ≡ none)
ExpireTells before after (err e) = after ≡ before

abbrev pub Answers : {A : Type 0} → Result Error A → Type 0
Answers (ok a) = Unit {0}
Answers (err e) = ⊥

abbrev pub GetAnswers : Result Error String → Type 0
GetAnswers (ok v) = Unit {0}
GetAnswers (err nil) = Unit {0}
GetAnswers (err (other m)) = ⊥

module _ (S : Server Request Reply) (value : S.State → String → Option String) where
  pub record IsRedis : Type 0 where
    pub on_set_nx :
        (s : S.State) (k v : String) (d : ℤ)
        → let (r, s') = S.handle (set_nx k v d) s in SetNxTells v (value s k) (value s' k) r
    pub on_get : (s : S.State) (k : String) → GetTells (value s k) (S.handle (get k) s).0
    pub on_del :
        (s : S.State) (k : String)
        → let (r, s') = S.handle (del k) s in DelTells (value s k) (value s' k) r
    pub on_expire :
        (s : S.State) (k : String) (d : ℤ)
        → is_positive d ≡ true
        → let (r, s') = S.handle (expire k d) s in ExpireTells (value s k) (value s' k) r
    -- No request touches another key, and GET none at all.
    pub set_nx_frame :
        (s : S.State) (k v : String) (d : ℤ) (j : String)
        → j ≢ k
        → value (S.handle (set_nx k v d) s).1 j ≡ value s j
    pub get_frame : (s : S.State) (k j : String) → value (S.handle (get k) s).1 j ≡ value s j
    pub del_frame :
        (s : S.State) (k j : String) → j ≢ k → value (S.handle (del k) s).1 j ≡ value s j
    pub expire_frame :
        (s : S.State) (k : String) (d : ℤ) (j : String)
        → j ≢ k
        → value (S.handle (expire k d) s).1 j ≡ value s j

-- Every request is answered. (`redis.Nil` is an answer of GET.)
module _ (S : Server Request Reply) where
  pub record IsHealthy : Type 0 where
    pub set_nx_answers :
        (s : S.State) (k v : String) (d : ℤ) → Answers (S.handle (set_nx k v d) s).0
    pub get_answers : (s : S.State) (k : String) → GetAnswers (S.handle (get k) s).0
    pub del_answers : (s : S.State) (k : String) → Answers (S.handle (del k) s).0
    pub expire_answers : (s : S.State) (k : String) (d : ℤ) → Answers (S.handle (expire k d) s).0
