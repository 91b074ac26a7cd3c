-- ===== src/Election/Leasing/Calls.antt =====
-- What one call of a client at some moment does to the leases: the caller's, and those of the others.
use quorum_quest.Prelude.{
  ℕ, ℤ, pos, negsuc, plus, ltb_ℤ, is_negative, Bool, true, false, String, ◌≡◌, ◌≢◌, ◌≤◌, refl,
  arith,
}
use quorum_quest.Program.{Server, ok}
use quorum_quest.Client.{Client, to_seconds}
use quorum_quest.Client
use quorum_quest.Service.{LockStore}
use quorum_quest.Election.{arrives, request_lost, answer_lost, Delivery, answer, handled}
use quorum_quest.Election.Leasing.{leased_after, KeepsLeases, LeadsInLease, IsLeasing}

pub ltb_ℤ_trans : (a b c : ℤ) → ltb_ℤ a b ≡ false → ltb_ℤ b c ≡ false → ltb_ℤ a c ≡ false
ltb_ℤ_trans (pos a) (pos b) (pos c) h k = ground arith
ltb_ℤ_trans (pos a) (pos b) (negsuc c) h k = refl
ltb_ℤ_trans (pos a) (negsuc b) (pos c) h k = ground arith
ltb_ℤ_trans (pos a) (negsuc b) (negsuc c) h k = refl
ltb_ℤ_trans (negsuc a) (pos b) c h k = ground arith
ltb_ℤ_trans (negsuc a) (negsuc b) (pos c) h k = ground arith
ltb_ℤ_trans (negsuc a) (negsuc b) (negsuc c) h k = ground arith

pub ltb_ℤ_irrefl : (a : ℤ) → ltb_ℤ a a ≡ false
ltb_ℤ_irrefl (pos a) = ground arith
ltb_ℤ_irrefl (negsuc a) = ground arith

plus_le : (m n : ℕ) (d : ℤ) → m ≤ n → ltb_ℤ (plus n d) (plus m d) ≡ false
plus_le m n (pos d) h = ground arith
plus_le m n (negsuc d) h = ground arith

module _ {Req : Type 0} {Rep : Req → Type 0} (S : Server Req Rep) (store : ℕ → LockStore Req Rep)
    (pass : ℕ → S.State → S.State) (lease : ℤ → ℤ)
    (Leased : ℕ → S.State → String → String → String → ℤ → Type 0) (Sound : S.State → Type 0) where
  abbrev Leads : ℕ → Client → ℤ → S.State → Type 0
  Leads = LeadsInLease S store pass lease Leased Sound

  abbrev until_after : ℕ → Delivery → Client → ℤ → ℤ
  until_after = leased_after S store pass lease

  -- Time passes.
  pub LeadsInLease-later :
      IsLeasing S store pass lease Leased Sound
      → (m n : ℕ) (q : Client) (until : ℤ) (st : S.State) → m ≤ n
      → Leads m q until st
      → Leads n q until (pass n st)
  LeadsInLease-later L m n q until st h leads leader = (
    ltb_ℤ_trans _ (plus m (lease (to_seconds q.ttl))) _ (plus_le m n (lease (to_seconds q.ttl)) h)
        (leads leader).0,
    λ valid.
        L.pass_keeps m n st q.service q.domain q.id until h
          ((leads leader).1 (ltb_ℤ_trans until (pos n) (pos m) valid (ground arith))) valid,
  )

  module _ (now : ℕ) (q : Client) (until : ℤ) (st st' : S.State)
      (leads : LeadsInLease S store pass lease Leased Sound now q until st) where
    abbrev renewed : ℤ
    renewed = plus now (lease (to_seconds q.ttl))

    pub own_acquire :
        (d : Delivery) (b : Bool)
        → (b ≡ true → Leased now st' q.service q.domain q.id (plus now (lease (to_seconds q.ttl))))
        → KeepsLeases S store pass lease Leased Sound now q.id
            (plus now (lease (to_seconds q.ttl)))
            st
            st'
        → let q' = (Client.try_acquire_lock (λ _. answer d (ok b)) q).1 in
          LeadsInLease S store pass lease Leased Sound now q'
            (leased_after S store pass lease now d q' until)
            (handled d st st')
    unfolding Client.try_acquire_lock
    own_acquire arrives true won keeps = λ l. (ltb_ℤ_irrefl renewed, λ valid. won refl)
    own_acquire arrives false won keeps = λ l. ground arith
    own_acquire request_lost b won keeps = leads
    own_acquire answer_lost b won keeps = λ l. (
      (leads l).0,
      λ valid. keeps q.service q.domain q.id until ((leads l).1 valid) valid (λ _. (leads l).0),
    )

    pub own_tick :
        (d : Delivery) (l : ℤ)
        → (is_negative l ≡ false
            → Leased now st' q.service q.domain q.id (plus now (lease (to_seconds q.ttl))))
        → let q' = (Client.tick (λ _. answer d (ok l)) q).1 in
          LeadsInLease S store pass lease Leased Sound now q'
            (leased_after S store pass lease now d q' until)
            (handled d st st')
    unfolding Client.tick Client.keep_alive
    own_tick arrives (pos n) kept = λ l. rw l (ltb_ℤ_irrefl renewed, λ valid. kept refl)
    own_tick arrives (negsuc n) kept = λ l. ground arith
    own_tick request_lost l kept = λ l. ground arith
    own_tick answer_lost l kept = λ l. ground arith

    pub own_release :
        (d : Delivery)
        → let q' = (Client.release_lock (λ _. answer d (ok tt)) q).1 in
          LeadsInLease S store pass lease Leased Sound now q'
            (leased_after S store pass lease now d q' until)
            (handled d st st')
    unfolding Client.release_lock
    own_release arrives = λ l. ground arith
    own_release request_lost = λ l. ground arith
    own_release answer_lost = λ l. ground arith

  -- What a call of client `a` keeps of the others' leases, where it may be lost.
  abbrev pub KeepsFrom : ℕ → String → S.State → S.State → Type 0
  KeepsFrom now a st st' =
      (u e x : String) (until : ℤ)
      → Leased now st u e x until
      → ltb_ℤ until (pos now) ≡ false
      → x ≢ a
      → Leased now st' u e x until

  pub KeepsFrom-handled :
      (d : Delivery) (now : ℕ) (a : String) (st st' : S.State)
      → KeepsFrom now a st st'
      → KeepsFrom now a st (handled d st st')
  KeepsFrom-handled arrives now a st st' h = h
  KeepsFrom-handled request_lost now a st st' h = λ u e x until held valid other. held
  KeepsFrom-handled answer_lost now a st st' h = h

  pub KeepsFrom-of :
      (now : ℕ) (a : String) (next : ℤ) (st st' : S.State)
      → KeepsLeases S store pass lease Leased Sound now a next st st'
      → KeepsFrom now a st st'
  KeepsFrom-of now a next st st' h =
      λ u e x until held valid other. h u e x until held valid (λ same. absurd (other same))

  pub Sound-handled :
      (d : Delivery) (st st' : S.State) → Sound st → Sound st' → Sound (handled d st st')
  Sound-handled arrives st st' s s' = s'
  Sound-handled request_lost st st' s s' = s
  Sound-handled answer_lost st st' s s' = s'

  pub LeadsInLease-kept :
      (now : ℕ) (q : Client) (a : String) (until : ℤ) (st st' : S.State)
      → q.id ≢ a
      → KeepsFrom now a st st'
      → Leads now q until st
      → Leads now q until st'
  LeadsInLease-kept now q a until st st' other keeps leads = λ l.
      ((leads l).0, λ valid. keeps q.service q.domain q.id until ((leads l).1 valid) valid other)
