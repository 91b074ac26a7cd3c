-- ===== src/Example/Order.antt =====
-- client/go/quorum-quest-client/example/main.go: the callbacks of a client run in goroutines of their own,
-- and take the mutex of the tasks in any order.
use mathlib.Core.Logic.Or
use mathlib.Core.List.{Mem, Perm, mem-cons, not-mem-nil, mem-cons_self, mem-append_right}
use mathlib.Core.List.Perm
use quorum_quest.Prelude.{
  Bool, true, false, some, List, [], ◌∷◌, ◌++◌, ◌≡◌, ◌↔◌, ◌∙◌, refl, sym, arith, subst,
}
use quorum_quest.Client.{Client, Event, elected, lost}
use quorum_quest.Client.Notifications.{Step, run, replay, releases_answered, run-replay}
use quorum_quest.Example.{
  ExampleCallbacks, start_tasks, stop_tasks, on_leader_elected, on_leader_lost, handle, deliver,
  no_tasks,
}
use quorum_quest.Example.Tasks.{has_tasks}

-- Whether the callback tells of a leadership that begins.
abbrev pub begins : Event → Bool
begins (elected leader) = leader
begins lost = false

-- Whether it tells of a change.
abbrev tells : Event → Bool
tells (elected leader) = leader
tells lost = true

-- The events of a replay all tell of a change.
replay-tells :
    (b c : Bool) (es : List Event) (e : Event) → replay b es ≡ some c → Mem e es → tells e ≡ true
replay-tells b c [] e h m = absurd (not-mem-nil m)
replay-tells false c (elected true ∷ es) e h m =
    Or.elim (hlevel) (mem-cons.0 m) (λ q. rw q refl) (replay-tells true c es e h)
replay-tells true c (lost ∷ es) e h m =
    Or.elim (hlevel) (mem-cons.0 m) (λ q. rw q refl) (replay-tells false c es e h)
replay-tells false c (elected false ∷ es) e h m = ground arith
replay-tells true c (elected l ∷ es) e h m = ground arith
replay-tells false c (lost ∷ es) e h m = ground arith

replay-last :
    (b c : Bool) (es : List Event) (e : Event) → replay b (es ++ (e ∷ [])) ≡ some c → c ≡ begins e
replay-last b c [] e h = ground arith
replay-last false c (elected true ∷ es) e h = replay-last true c es e h
replay-last true c (lost ∷ es) e h = replay-last false c es e h
replay-last false c (elected false ∷ es) e h = ground arith
replay-last true c (elected l ∷ es) e h = ground arith
replay-last false c (lost ∷ es) e h = ground arith

handle-begins :
    (e : Event) (c : ExampleCallbacks) → tells e ≡ true → has_tasks (handle e c) ≡ begins e
unfolding handle on_leader_elected on_leader_lost start_tasks stop_tasks
handle-begins (elected leader) c h = ground arith
handle-begins lost c h = ground arith

deliver-last :
    (es : List Event) (e : Event) (c : ExampleCallbacks)
    → tells e ≡ true
    → has_tasks (deliver (es ++ (e ∷ [])) c) ≡ begins e
unfolding deliver
deliver-last [] e c h = handle-begins e c h
deliver-last (x ∷ es) e c h = deliver-last es e (handle x c) h

-- Over any history of lock calls and keep-alives in which no release fails, of a client that does not
-- lead at first and some of whose callbacks are started: in whatever order these take the mutex, the
-- tasks run in the end as the client leads if and only if the callback that comes last tells of a
-- begin, or of an end, of leadership as the one does that was started last.
pub callbacks_in_any_order :
    (q : Client) (xs : List Step) (es others : List Event) (e f : Event)
    → q.is_leader ≡ false
    → releases_answered xs q ≡ true
    → (run xs q).1 ≡ es ++ (e ∷ [])
    → Perm (others ++ (f ∷ [])) (es ++ (e ∷ []))
    → (has_tasks (deliver (others ++ (f ∷ [])) no_tasks) ≡ (run xs q).0.is_leader)
      ↔ (begins f ≡ begins e)
callbacks_in_any_order q xs es others e f follows answered made order =
    let told =
      subst (λ b. replay b (es ++ (e ∷ [])) ≡ some (run xs q).0.is_leader) follows
        (subst (λ l. replay q.is_leader l ≡ some (run xs q).0.is_leader) made
          (run-replay q xs answered)) in
    let leads = replay-last false (run xs q).0.is_leader es e told in
    let f_told =
      replay-tells false (run xs q).0.is_leader (es ++ (e ∷ [])) f told
        ((Perm.mem_iff order).0 (mem-append_right others mem-cons_self)) in
    let tasks = deliver-last others f no_tasks f_told in
    (λ agree. sym tasks ∙ agree ∙ leads, λ same. tasks ∙ same ∙ sym leads)
