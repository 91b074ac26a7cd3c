-- ===== src/Election/Contract.antt =====
-- What an election relies on of a store: whom the lock calls leave the locks. `holder st u e` is the client
-- that holds the lock of service `u` and domain `e` in state `st` of the database. Requests may fail, and
-- two locks may share a key.
use quorum_quest.Prelude.{
  ℤ, IsInt32, Bool, true, false, String, Option, none, some, ◌≡◌, ◌⊎◌, refl, inr,
}
use quorum_quest.Program.{Server, execute}
use quorum_quest.Service.{LockStore}

-- The lock stays with its holder.
abbrev pub Keeps : Option String → Option String → Type 0
Keeps none after = Unit {0}
Keeps (some x) after = after ≡ some x

-- The lock stays with its holder, but for the client `a`.
abbrev pub KeepsFrom : String → Option String → Option String → Type 0
KeepsFrom a none after = Unit {0}
KeepsFrom a (some x) after = (x ≡ a) ⊎ (after ≡ some x)

-- An acquisition that succeeds leaves the lock with the caller.
abbrev pub Grants : String → Bool → Option String → Type 0
Grants a true after = after ≡ some a
Grants a false after = Unit {0}

pub Keeps-same : (before after : Option String) → after ≡ before → Keeps before after
Keeps-same none after e = tt
Keeps-same (some x) after e = e

pub Keeps-of :
    (before after : Option String)
    → ((x : String) → before ≡ some x → after ≡ some x)
    → Keeps before after
Keeps-of none after k = tt
Keeps-of (some x) after k = k x refl

pub KeepsFrom-of :
    (a : String) (before after : Option String)
    → ((x : String) → before ≡ some x → (x ≡ a) ⊎ (after ≡ some x))
    → KeepsFrom a before after
KeepsFrom-of a none after k = tt
KeepsFrom-of a (some x) after k = k x refl

pub Grants-of :
    (a : String) (b : Bool) (after : Option String) → (b ≡ true → after ≡ some a) → Grants a b after
Grants-of a true after g = g refl
Grants-of a false after g = tt

pub KeepsFrom-same :
    (a : String) (before after : Option String) → after ≡ before → KeepsFrom a before after
KeepsFrom-same a none after e = tt
KeepsFrom-same a (some x) after e = inr e

module _ {Req : Type 0} {Rep : Req → Type 0} (S : Server Req Rep) (store : LockStore Req Rep)
    (holder : S.State → String → String → Option String) where
  pub record IsSafe : Type 0 where
    pub acquire_grants :
        (st : S.State) (service domain a : String) (ttl : ℤ)
        → IsInt32 ttl
        → let (b, st') = execute S (store.try_acquire service domain a ttl) st in
          Grants a b (holder st' service domain)
    pub acquire_keeps :
        (st : S.State) (service domain a : String) (ttl : ℤ) (u e : String)
        → IsInt32 ttl
        → Keeps
            (holder st u e)
            (holder (execute S (store.try_acquire service domain a ttl) st).1 u e)
    pub release_keeps :
        (st : S.State) (service domain a u e : String)
        → KeepsFrom a (holder st u e) (holder (execute S (store.release service domain a) st).1 u e)
    pub renew_keeps :
        (st : S.State) (service domain a : String) (ttl : ℤ) (u e : String)
        → IsInt32 ttl
        → Keeps (holder st u e) (holder (execute S (store.renew service domain a ttl) st).1 u e)
