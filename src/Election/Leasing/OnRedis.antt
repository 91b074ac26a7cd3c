-- ===== src/Election/Leasing/OnRedis.antt =====
-- The Redis store of internal/store/redis/redis_store.go leases its locks, on any server that keeps the
-- laws of Redis/Server.antt and Redis/Expiry.antt.
use quorum_quest.Prelude.{
  ℕ, ℤ, plus, ltb_ℤ, is_positive, is_negative, IsInt32, true, false, String, str_dec, Option, some,
  ◌≡◌, ◌≢◌, ◌⊎◌, inl, inr, sym, ap, subst, ◌∙◌,
}
use quorum_quest.Program.{Server, execute}
use quorum_quest.Lease.{seconds}
use quorum_quest.Redis.{
  Request, Reply, Store, lock_key, resolve_ttl, try_acquire_lock, release_lock, keep_alive,
}
use quorum_quest.Redis.Server.{IsRedis}
use quorum_quest.Redis.Expiry.{IsExpiring}
use quorum_quest.Redis.Safety.{try_acquire_lock_granted, release_lock-foreign, lock_calls_frame}
use quorum_quest.Redis.Leases.{
  acquire_dates, renew_dates, acquire_own, renew_own, acquire_foreign, release_foreign,
  renew_foreign, acquire_frame, release_frame, renew_frame,
}
use quorum_quest.Service.Stores.{redis_store}
use quorum_quest.Election.OnRedis.{
  resolved_positive, resolved_small, lease_positive, acquire_keeps_key, renew_keeps_key,
}
use quorum_quest.Election.Leasing.{KeepsLeases, IsLeasing}
use quorum_quest.Election.Leasing.Calls.{ltb_ℤ_trans, ltb_ℤ_irrefl}

some_name : {x y : String} → some x ≡ some y → x ≡ y
some_name h = cc

module _ (S : Server Request Reply) (value : S.State → String → Option String) (R : IsRedis S value)
    (deadline : S.State → String → ℤ) (moment : S.State → ℕ) (pass : ℕ → S.State → S.State)
    (X : IsExpiring S value deadline moment pass) (s : Store) (small : IsInt32 s.ttl)
    (positive : is_positive s.ttl ≡ true) where
  abbrev pub Leased : ℕ → S.State → String → String → String → ℤ → Type 0
  Leased now st u e x until =
      (value st (lock_key s u e) ≡ some x) × (ltb_ℤ (deadline st (lock_key s u e)) until ≡ false)

  abbrev pub Sound : S.State → Type 0
  Sound st = Unit {0}

  abbrev lease : ℤ → ℤ
  lease ttl = seconds (resolve_ttl s ttl)

  moment_passed : (now : ℕ) (st : S.State) (d : ℤ) → plus (moment (pass now st)) d ≡ plus now d
  moment_passed now st d = ap (λ m. plus m d) (X.on_pass st now)

  covers : {a b : ℤ} (until : ℤ) → a ≡ b → ltb_ℤ b until ≡ false → ltb_ℤ a until ≡ false
  covers until e h = rw e h

  covers_either :
      {d' d next : ℤ} (until : ℤ)
      → (d' ≡ d) ⊎ (d' ≡ next)
      → ltb_ℤ d until ≡ false
      → ltb_ℤ next until ≡ false
      → ltb_ℤ d' until ≡ false
  covers_either until (inl same) old new = covers until same old
  covers_either until (inr renewed) old new = covers until renewed new

  module _ (now : ℕ) (service domain a : String) (ttl : ℤ) (st : S.State) where
    abbrev key : String
    key = lock_key s service domain

    abbrev renewed : ℤ
    renewed = plus now (lease ttl)

    -- What a call does to the lease in its own key, and to those in others.
    keeps_by :
        (st' : S.State)
        → ((x : String) → value st key ≡ some x → value st' key ≡ some x)
        → ((x : String)
            → value st key ≡ some x
            → (deadline st' key ≡ deadline st key) ⊎ (deadline st' key ≡ renewed))
        → ((x : String) → value st key ≡ some x → x ≢ a → deadline st' key ≡ deadline st key)
        → ((j : String) → j ≢ key → (value st' j ≡ value st j) × (deadline st' j ≡ deadline st j))
        → KeepsLeases S (λ n. redis_store s) pass lease Leased Sound now a renewed st st'
    keeps_by st' stays own foreign apart u e x until (held, bound) valid next =
        elim (str_dec (lock_key s u e) key) [
          | no n ↦ ((apart _ n).0 ∙ held, covers until (apart _ n).1 bound)
          | yes k ↦
              let here = subst (λ j. value st j ≡ some x) k held in
              let old = subst (λ j. ltb_ℤ (deadline st j) until ≡ false) k bound in
              subst (λ j. (value st' j ≡ some x) × (ltb_ℤ (deadline st' j) until ≡ false)) (sym k)
                (
                  stays x here,
                  elim (str_dec x a) [
                    | yes mine ↦ covers_either until (own x here) old (next mine)
                    | no other ↦ covers until (foreign x here other) old
                  ],
                )
        ]

  module _ (now : ℕ) (before : S.State) (service domain a : String) where
    abbrev own_key : String
    own_key = lock_key s service domain

    abbrev st : S.State
    st = pass now before

    module _ (ttl : ℤ) (fits : IsInt32 ttl) where
      abbrev next_end : ℤ
      next_end = plus now (lease ttl)

      long : (st : S.State) → is_positive (lease ttl) ≡ true
      long st = lease_positive S value R s small positive st service domain a ttl fits

      acquire_leases :
          let (b, st') = execute S (try_acquire_lock s service domain a ttl) (pass now before) in
          b ≡ true → Leased now st' service domain a (plus now (lease ttl))
      acquire_leases granted = (
        (try_acquire_lock_granted S value R s service domain a ttl
            (resolved_small S value R s small positive ttl fits)
            (resolved_positive S value R s small positive ttl) st granted).1,
        covers next_end
            (acquire_dates S value R deadline moment pass X s service domain a ttl (long st) st
                granted
              ∙ moment_passed now before (lease ttl))
            (ltb_ℤ_irrefl next_end),
      )

      acquire_keeps :
          let (b, st') = execute S (try_acquire_lock s service domain a ttl) (pass now before) in
          KeepsLeases S
            (λ n. redis_store s)
            pass
            lease
            Leased
            Sound
            now
            a
            (plus now (lease ttl))
            (pass now before)
            st'
      acquire_keeps =
          keeps_by now service domain a ttl st _
            (acquire_keeps_key S value R s small positive st service domain a ttl fits)
            (λ x held. rw (sym (moment_passed now before (lease ttl))) (
              acquire_own S value R deadline moment pass X s service domain a ttl (long st) st x
                held))
            (acquire_foreign S value R deadline moment pass X s service domain a ttl (long st) st)
            (λ j n. (
              (lock_calls_frame S value R s service domain a ttl st j n).0,
              acquire_frame S value R deadline moment pass X s service domain a ttl (long st) st j
                  n,
            ))

      renew_leases :
          let (l, st') = execute S (keep_alive s service domain a ttl) (pass now before) in
          is_negative l ≡ false → Leased now st' service domain a (plus now (lease ttl))
      renew_leases answered =
          let (own, next) =
            renew_dates S value R deadline moment pass X s service domain a ttl (long st) st
              answered in
          (
            renew_keeps_key S value R s small positive st service domain a ttl fits a own,
            covers next_end (next ∙ moment_passed now before (lease ttl)) (ltb_ℤ_irrefl next_end),
          )

      renew_keeps :
          let (l, st') = execute S (keep_alive s service domain a ttl) (pass now before) in
          KeepsLeases S
            (λ n. redis_store s)
            pass
            lease
            Leased
            Sound
            now
            a
            (plus now (lease ttl))
            (pass now before)
            st'
      renew_keeps =
          keeps_by now service domain a ttl st _
            (renew_keeps_key S value R s small positive st service domain a ttl fits)
            (λ x held. rw (sym (moment_passed now before (lease ttl))) (
              renew_own S value R deadline moment pass X s service domain a ttl (long st) st x
                held))
            (renew_foreign S value R deadline moment pass X s service domain a ttl (long st) st)
            (λ j n. (
              (lock_calls_frame S value R s service domain a ttl st j n).2,
              renew_frame S value R deadline moment pass X s service domain a ttl (long st) st j n,
            ))

    release_keeps :
        let (_, st') = execute S (release_lock s service domain a) (pass now before) in
        (u e x : String) (until : ℤ)
        → Leased now (pass now before) u e x until
        → x ≢ a
        → Leased now st' u e x until
    release_keeps u e x until (held, bound) other =
        let st' = (execute S (release_lock s service domain a) st).1 in
        let stored = long s.ttl small st in
        elim (str_dec (lock_key s u e) own_key) [
          | no n ↦ (
            (lock_calls_frame S value R s service domain a s.ttl st _ n).1 ∙ held,
            covers until
                (release_frame S value R deadline moment pass X s service domain a s.ttl stored st _
                  n)
                bound,
          )
          | yes k ↦
              let here = subst (λ j. value st j ≡ some x) k held in
              subst (λ j. (value st' j ≡ some x) × (ltb_ℤ (deadline st' j) until ≡ false)) (sym k)
                (
                  release_lock-foreign S value R s service domain a s.ttl st x here other,
                  covers until
                      (release_foreign S value R deadline moment pass X s service domain a s.ttl
                        stored st x here other)
                      (subst (λ j. ltb_ℤ (deadline st j) until ≡ false) k bound),
                )
        ]

  -- Where the TTL of the store is positive and an int32, the Redis store leases its locks: a key that
  -- holds the client, with its deadline at the moment in question or later. Requests may fail, and the
  -- clock of the server stands still during a call.
  pub redis_store-IsLeasing :
      IsLeasing S (λ n. redis_store s) pass (λ ttl. seconds (resolve_ttl s ttl)) Leased Sound
  redis_store-IsLeasing = record {
    one_holder = λ now st u e x y v w held held'. some_name (sym held.0 ∙ held'.0);
    pass_keeps = λ now later st u e x until h held valid. (
      X.pass_value st later (lock_key s u e) x held.0 (ltb_ℤ_trans _ until _ held.1 valid),
      covers until (X.pass_deadline st later (lock_key s u e)) held.1,
    );
    pass_sound = λ later st well. tt;
    acquire = λ now st service domain a ttl well fits. (
      tt,
      acquire_leases now st service domain a ttl fits,
      acquire_keeps now st service domain a ttl fits,
    );
    release = λ now st service domain a well.
        (tt, λ u e x until held valid. release_keeps now st service domain a u e x until held);
    renew = λ now st service domain a ttl well fits. (
      tt,
      renew_leases now st service domain a ttl fits,
      renew_keeps now st service domain a ttl fits,
    );
  }
