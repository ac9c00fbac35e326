-- ===== src/Posted/Tests.antt =====
-- The theorems on posted queues at a queue of two events.
use mysqlproxy.Base.{subst, ℕ, ◌≡◌, refl, none, List, [], ◌∷◌, arith}
use mysqlproxy.Base.Runs.{ok-inj, ok, Returns}
use mysqlproxy.State.{Queue, accepts, others, head_of}
use mysqlproxy.State.Samples.{queued_world}
use mysqlproxy.Posted.{post_event, delete_posted, process_posted}
use mysqlproxy.Posted.Chain.{Chain, nil, cons}
use mysqlproxy.Posted.Both.{IsPosted, with_event, post_event-IsPosted}
use mysqlproxy.Posted.Delete.{replaced, delete_posted-IsPosted}
use mysqlproxy.Posted.Process.{handle_all, process_posted-handle_all}

abbrev pub queued : Queue → List ℕ
queued accepts = []
queued others = 2 ∷ 7 ∷ []

queued-Chain : (q : Queue) → Chain queued_world (head_of q) (queued q)
queued-Chain accepts = nil refl
queued-Chain others = cons refl refl refl (cons refl refl refl (nil refl))

pub queued-IsPosted : IsPosted queued_world queued
queued-IsPosted = record {
  chain = queued-Chain;
  apart = λ a h. ground arith;
  known = λ a h. ground arith;
}

post_event-IsPosted_example :
    IsPosted (post_event queued_world 1 accepts) (with_event queued 1 accepts)
post_event-IsPosted_example = post_event-IsPosted 1 accepts queued-IsPosted

delete_posted-IsPosted_example :
    Returns
      (λ w'. IsPosted w' (replaced queued others (2 ∷ [])) × ((w'.events 7).prev ≡ none))
      (delete_posted queued_world 7)
delete_posted-IsPosted_example = delete_posted-IsPosted others (2 ∷ []) 7 [] queued-IsPosted refl

process_posted-handle_all_example :
    process_posted (λ e w. ok w) 3 others queued_world
    ≡ handle_all (λ e w. ok w) (2 ∷ 7 ∷ []) queued_world
process_posted-handle_all_example =
    process_posted-handle_all (λ e w. ok w) others 3
      (λ e v v' fs h c. subst (λ u. Chain u (head_of others) fs) (ok-inj h) c) (queued-Chain others)
      (omega arith)
