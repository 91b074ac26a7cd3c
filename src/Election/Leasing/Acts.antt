-- ===== src/Election/Leasing/Acts.antt =====
-- One call of a client through the handler and a store that leases, at some moment.
use quorum_quest.Prelude.{ℕ, IsInt32, ℤ, String, Option}
use quorum_quest.Program.{Server, execute}
use quorum_quest.Client.{Client, to_seconds, lock_request, release_request}
use quorum_quest.Service.{LockStore}
use quorum_quest.Service.Handlers.{
  try_acquire_lock-serving, release_lock-serving, keep_alive-serving,
}
use quorum_quest.Election.{Delivery, try_acquire, release, tick}
use quorum_quest.Election.Calls.{Same, Same-acquire, Same-release, Same-tick}
use quorum_quest.Election.Leasing.{leased_after, LeadsInLease, IsLeasing}
use quorum_quest.Election.Leasing.Calls.{
  KeepsFrom, KeepsFrom-handled, KeepsFrom-of, Sound-handled, own_acquire, own_tick, own_release,
}

module _ {Req : Type 0} {Rep : Req → Type 0} (S : Server Req Rep) (store : ℕ → LockStore Req Rep)
    (pass : ℕ → S.State → S.State) (lease : ℤ → ℤ)
    (Leased : ℕ → S.State → String → String → String → ℤ → Type 0) (Sound : S.State → Type 0)
    (L : IsLeasing S store pass lease Leased Sound) (metric : Option String) where
  abbrev Leads : ℕ → Client → ℤ → S.State → Type 0
  Leads = LeadsInLease S store pass lease Leased Sound

  abbrev until_after : ℕ → Delivery → Client → ℤ → ℤ
  until_after = leased_after S store pass lease

  -- One call at a moment: the caller stays itself and leads within its lease, and the database stays
  -- well formed and keeps what others lease.
  abbrev pub TimedActs : ℕ → Delivery → Client → ℤ → S.State → Client × S.State → Type 0
  TimedActs now d q until st (p, st') =
      Same q p
      × Sound st'
      × Leads now p (until_after now d p until) st'
      × KeepsFrom S store pass lease Leased Sound now q.id st st'

  module _ (now : ℕ) (q : Client) (d : Delivery) (until : ℤ) (before : S.State)
      (fits : IsInt32 (to_seconds q.ttl)) (sound : Sound before)
      (leads : LeadsInLease S store pass lease Leased Sound now q until (pass now before)) where
    abbrev st : S.State
    st = pass now before

    pub try_acquire-TimedActs :
        TimedActs now d q until
          (pass now before)
          (try_acquire S (store now) metric d q (pass now before))
    unfolding try_acquire lock_request
    try_acquire-TimedActs =
        let (b, st') =
          execute S ((store now).try_acquire q.service q.domain q.id (to_seconds q.ttl)) st in
        let (well, won, keeps) =
          L.acquire now before q.service q.domain q.id (to_seconds q.ttl) sound fits in
        rw (try_acquire_lock-serving S (store now) st metric (lock_request q)) (
          Same-acquire q _,
          Sound-handled S store pass lease Leased Sound d st st' (L.pass_sound now before sound)
              well,
          own_acquire S store pass lease Leased Sound now q until st st' leads d b won keeps,
          KeepsFrom-handled S store pass lease Leased Sound d now q.id st st'
              (KeepsFrom-of S store pass lease Leased Sound now q.id _ st st' keeps),
        )

    pub release-TimedActs :
        TimedActs now d q until
          (pass now before)
          (release S (store now) metric d q (pass now before))
    unfolding release release_request
    release-TimedActs =
        let (_, st') = execute S ((store now).release q.service q.domain q.id) st in
        let (well, keeps) = L.release now before q.service q.domain q.id sound in
        rw (release_lock-serving S (store now) st metric (release_request q)) (
          Same-release q _,
          Sound-handled S store pass lease Leased Sound d st st' (L.pass_sound now before sound)
              well,
          own_release S store pass lease Leased Sound now q until st st' leads d,
          KeepsFrom-handled S store pass lease Leased Sound d now q.id st st' keeps,
        )

    pub tick-TimedActs :
        TimedActs now d q until (pass now before) (tick S (store now) metric d q (pass now before))
    unfolding tick lock_request
    tick-TimedActs =
        let (l, st') =
          execute S ((store now).renew q.service q.domain q.id (to_seconds q.ttl)) st in
        let (well, kept, keeps) =
          L.renew now before q.service q.domain q.id (to_seconds q.ttl) sound fits in
        rw (keep_alive-serving S (store now) st metric (lock_request q)) (
          Same-tick q _,
          Sound-handled S store pass lease Leased Sound d st st' (L.pass_sound now before sound)
              well,
          own_tick S store pass lease Leased Sound now q until st st' leads d l kept,
          KeepsFrom-handled S store pass lease Leased Sound d now q.id st st'
              (KeepsFrom-of S store pass lease Leased Sound now q.id _ st st' keeps),
        )
