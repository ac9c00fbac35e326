-- ===== src/Select/Poll/Same.antt =====
-- What posting an event leaves as it is.
use mysqlproxy.Base.{◌∙◌, ℕ, ◌≡◌, refl, inl, inr, arith, Option-cases}
use mysqlproxy.State.{Queue, accepts, others, World}
use mysqlproxy.Posted.{in_front, post_event}
use mysqlproxy.Posted.Chain.{post-in_front}
use mysqlproxy.Posted.Both.{post_event-known}
use mysqlproxy.Select.Poll.{make_ready}

-- all that the select() module and the event core go by is the same in both worlds
pub record Same (w w' : World) : Type 0 where
  pub select : w'.select ≡ w.select
  pub connections : w'.connections ≡ w.connections
  pub times : w'.times ≡ w.times
  pub timers : w'.timers ≡ w.timers
  pub index : (y : ℕ) → (w'.events y).index ≡ (w.events y).index
  pub active : (y : ℕ) → (w'.events y).active ≡ (w.events y).active
  pub write : (y : ℕ) → (w'.events y).write ≡ (w.events y).write
  pub accept : (y : ℕ) → (w'.events y).accept ≡ (w.events y).accept
  pub data_of : (y : ℕ) → (w'.events y).data_of ≡ (w.events y).data_of

pub Same-refl : (w : World) → Same w w
Same-refl w = record {
  select = refl;
  connections = refl;
  times = refl;
  timers = refl;
  index = λ y. refl;
  active = λ y. refl;
  write = λ y. refl;
  accept = λ y. refl;
  data_of = λ y. refl;
}

in_front-Same : (w : World) (e : ℕ) (q : Queue) → Same w (in_front w e q)
in_front-Same w e accepts = record {
  select = ground arith;
  connections = ground arith;
  times = ground arith;
  timers = ground arith;
  index = λ y. ground arith;
  active = λ y. ground arith;
  write = λ y. ground arith;
  accept = λ y. ground arith;
  data_of = λ y. ground arith;
}
in_front-Same w e others = record {
  select = ground arith;
  connections = ground arith;
  times = ground arith;
  timers = ground arith;
  index = λ y. ground arith;
  active = λ y. ground arith;
  write = λ y. ground arith;
  accept = λ y. ground arith;
  data_of = λ y. ground arith;
}

ready-in_front :
    (w : World) (e y : ℕ) (q : Queue) → ((in_front w e q).events y).ready ≡ (w.events y).ready
ready-in_front w e y accepts = ground arith
ready-in_front w e y others = ground arith

pub post_event-Same :
    (w : World) (e : ℕ) (q : Queue)
    → Same w (post_event w e q)
      × ((y : ℕ) → ((post_event w e q).events y).ready ≡ (w.events y).ready)
post_event-Same w e q = elim (Option-cases (w.events e).prev) [
  | inl new ↦ rw (post-in_front w e q new) (in_front-Same w e q, λ y. ready-in_front w e y q)
  | inr (l, old) ↦ rw (post_event-known w e q old) (Same-refl w, λ y. refl)
]

pub Same-trans : {u v w : World} → Same u v → Same v w → Same u w
Same-trans s t = record {
  select = t.select ∙ s.select;
  connections = t.connections ∙ s.connections;
  times = t.times ∙ s.times;
  timers = t.timers ∙ s.timers;
  index = λ y. t.index y ∙ s.index y;
  active = λ y. t.active y ∙ s.active y;
  write = λ y. t.write y ∙ s.write y;
  accept = λ y. t.accept y ∙ s.accept y;
  data_of = λ y. t.data_of y ∙ s.data_of y;
}

pub make_ready-Same : (w : World) (e : ℕ) → Same w (make_ready w e)
make_ready-Same w e = record {
  select = refl;
  connections = refl;
  times = refl;
  timers = refl;
  index = λ y. ground arith;
  active = λ y. ground arith;
  write = λ y. ground arith;
  accept = λ y. ground arith;
  data_of = λ y. ground arith;
}
