-- ===== src/Select/Tests.antt =====
-- The theorems on the select() module at an event that reads descriptor 5.
use mysqlproxy.Base.{
  subst, sym, ◌∙◌, ℕ, ◌≡◌, ◌≢◌, refl, true, false, Bool, none, some, List, [], arith, ◌==◌,
}
use mysqlproxy.Base.Runs.{Returns}
use mysqlproxy.State.{Queue, accepts, others}
use mysqlproxy.State.Samples.{open_world, watching_world, tm_zero}
use mysqlproxy.Posted.Chain.{nil}
use mysqlproxy.Posted.Both.{IsPosted}
use mysqlproxy.Select.{read_event, add_event, del_event}
use mysqlproxy.Select.Watch.{fd_of, Watched, Watches, IsWatching, Added, add_event-Added}
use mysqlproxy.Select.Unwatch.{Dropped, del_event-Dropped}
use mysqlproxy.Select.Start.{init, IsStarted, init-IsStarted}
use mysqlproxy.Select.Poll.{ready, process_events}
use mysqlproxy.Select.Poll.Round.{Polled, process_events-Polled}

pub open-IsWatching : IsWatching open_world
open-IsWatching = record {
  fits = omega arith;
  small = omega arith;
  listed = λ i p. absurd (omega arith);
  active = λ i p. absurd (omega arith);
  opened = λ e h. absurd (omega (arith, h.0));
  covered = λ b f e h. absurd (omega (arith, h.0.0));
  needed = elim [ true ↦ λ f h. absurd (ground arith) | false ↦ λ f h. absurd (ground arith) ];
  alone = λ b f e e' h h'. absurd (omega (arith, h.0.0));
  settable = λ e f h h'. absurd (omega (arith, h.0));
  highest = λ m e f t h h'. absurd (omega (arith, h.0));
}

only_zero : (e : ℕ) → Watched watching_world e → e ≡ 0
only_zero e h = ground arith

kind-zero : (b : Bool) (f e : ℕ) → Watches watching_world b f e → (b ≡ false) × (f ≡ 5)
kind-zero b f e (h, h', h'') =
    let at : Watches watching_world b f 0 =
      subst (λ x. Watches watching_world b f x) (only_zero e h) (h, h', h'') in
    (sym at.1, ground (arith, at.2))

pub sample-IsWatching : IsWatching watching_world
sample-IsWatching = record {
  fits = omega arith;
  small = omega arith;
  listed = λ i p. ground arith;
  active = λ i p. ground arith;
  opened =
      λ e h. subst (λ x. fd_of watching_world x ≢ none) (sym (only_zero e h)) (λ u. ground arith);
  covered = λ b f e h. let (t, t') = kind-zero b f e h in rw (t, t') refl;
  needed = elim [
    | true ↦ λ f h. absurd (ground arith)
    | false ↦ λ f h. (0, ((omega arith, refl), refl, ground arith))
  ];
  alone = λ b f e e' h h'. only_zero e h.0 ∙ sym (only_zero e' h'.0);
  settable = λ e f h h'.
      let (_, five) = kind-zero (watching_world.events e).write f e (h, refl, h') in
      omega (arith, five);
  highest = λ m e f t h h'. absurd (ground arith);
}

abbrev pub none_queued : Queue → List ℕ
none_queued q = []

pub no-IsPosted : IsPosted watching_world none_queued
no-IsPosted = record {
  chain = elim [ accepts ↦ nil refl | others ↦ nil refl ];
  apart = λ a h. refl;
  known = λ a h. ground arith;
}

add_event-Added_example : Returns (Added open_world 0) (add_event open_world 0 read_event)
add_event-Added_example =
    add_event-Added 0 5 open-IsWatching refl refl (omega arith) (λ y h. omega (arith, h.0.0))
      (omega arith)

del_event-Dropped_example :
    Returns (Dropped watching_world 0) (del_event watching_world 0 read_event)
del_event-Dropped_example = del_event-Dropped 0 5 sample-IsWatching refl (omega arith, refl)

process_events-Polled_example :
    Returns
      (Polled
        (λ k a b c. ready 1 (λ f. f == 5) (λ f. false))
        (λ f. true)
        (λ s. tm_zero)
        (record { sec = 7; usec = 0 })
        watching_world
        none_queued
        1
        (λ f. f == 5)
        (λ f. false))
      (process_events
        (λ k a b c. ready 1 (λ f. f == 5) (λ f. false))
        (λ f. true)
        (λ s. tm_zero)
        (record { sec = 7; usec = 0 })
        watching_world
        500)
process_events-Polled_example =
    process_events-Polled (λ k a b c. ready 1 (λ f. f == 5) (λ f. false)) (λ f. true) (λ s. tm_zero)
      (record { sec = 7; usec = 0 }) 500 0 (λ f. f == 5) (λ f. false) (λ k a b c. refl)
      sample-IsWatching no-IsPosted

-- a new configuration with two connections behind one with one, and one event that is watched
init-IsStarted_example :
    Returns (IsStarted true true watching_world) (init (some 1) true true (λ i. 9) watching_world)
init-IsStarted_example =
    init-IsStarted (some 1) true true (λ i. 9) watching_world
      (λ z. (sample-IsWatching, omega arith)) refl (omega arith)
