-- ===== src/Cloudsync/Tests.antt =====
-- internal/cloudsync/engine.go: cycles of a linked shop with clouds that accept, refuse and answer.
use pos_agent.Base.{
  ◌≡◌, refl, inl, true, false, Option, none, some, [], text, text_eq, arith, In, map,
}
use pos_agent.Base.Int.{pos}
use pos_agent.Bolt.Memory.{memory, memory-IsLawful}
use pos_agent.Domain.{Product, Sale, StockEvent, SyncState}
use pos_agent.Boltstore.Db.{Db}
use pos_agent.Boltstore.Fixture.{bread_id, bread, shop, dear_draft, later_draws}
use pos_agent.Boltstore.Db.{committed}
use pos_agent.Boltstore.Products.{update_product}
use pos_agent.Boltstore.Outbox.{link, sync_state, pending_products}
use pos_agent.Boltstore.Pull.{Pulled}
use pos_agent.Cloudsync.Engine.{answer, failed, SyncClient, gather, is_empty, push, sync_once}
use pos_agent.Cloudsync.Engine.Pushing.{
  IsKeyed, NothingWaits, push-drains, push-marks, push_forgets_edit, mark_left,
}
use pos_agent.Cloudsync.Engine.Cycle.{sync_once-failed_cursor}

abbrev nothing_new : Pulled
nothing_new = record { products = []; sales = []; stock_events = []; settings = none }

abbrev willing : SyncClient
willing = record {
  push = λ url token payload. answer tt;
  pull = λ url token cursor. answer (record { cursor = pos 7; changes = nothing_new });
}

abbrev offline : SyncClient
offline = record {
  push = λ url token payload. failed (text "no route to host");
  pull = λ url token cursor. failed (text "no route to host");
}

unfoldable linked_shop : Db memory
unfolding link
linked_shop = link (text "https://cloud") (text "shop") (text "a@b.c") (text "t") shop

abbrev link_state : SyncState
link_state = sync_state linked_shop

-- The bread is edited while the push is in flight.
abbrev edit : Db memory → Db memory
edit db = committed db (update_product 7 later_draws bread_id dear_draft db)

absent : {A : Type 0} (o : Option A) (a : A) → o ≡ none → o ≡ some a → ⊥
absent o a n e = cc

linked-IsKeyed : IsKeyed linked_shop
unfolding linked_shop shop memory link text_eq
linked-IsKeyed = record {
  products = λ id p e. ground arith;
  sales = λ id s e. absurd (absent (none) s refl e);
  events = λ id ev e. ground arith;
}

push-drains_example :
    ((push willing link_state (λ d. d) linked_shop).0 ≡ none)
    × NothingWaits memory-IsLawful (push willing link_state (λ d. d) linked_shop).1 bread_id
push-drains_example =
    push-drains memory-IsLawful willing link_state linked_shop linked-IsKeyed refl bread_id

bread_waits : In bread (pending_products linked_shop)
unfolding linked_shop shop memory text_eq pending_products link
bread_waits = inl refl

something_due : is_empty (gather linked_shop) ≡ false
unfolding linked_shop shop memory text_eq pending_products link is_empty gather
something_due = refl

push-marks_example :
    (memory.get Unit (push willing link_state edit linked_shop).1.pending_prods bread_id
      ≡ mark_left
          (answer tt)
          (map (λ (p : Product). p.id) (gather linked_shop).products)
          bread_id
          (memory.get Unit (edit linked_shop).pending_prods bread_id))
    × (memory.get Unit (push willing link_state edit linked_shop).1.pending_sales bread_id
        ≡ mark_left
            (answer tt)
            (map (λ (s : Sale). s.id) (gather linked_shop).sales)
            bread_id
            (memory.get Unit (edit linked_shop).pending_sales bread_id))
    × (memory.get Unit (push willing link_state edit linked_shop).1.pending_stockev bread_id
        ≡ mark_left
            (answer tt)
            (map (λ (ev : StockEvent). ev.id) (gather linked_shop).stock_events)
            bread_id
            (memory.get Unit (edit linked_shop).pending_stockev bread_id))
push-marks_example =
    push-marks memory-IsLawful willing link_state edit linked_shop bread_id something_due

push_forgets_edit_example :
    ((push willing link_state edit linked_shop).1.products ≡ (edit linked_shop).products)
    × (memory.get Unit (push willing link_state edit linked_shop).1.pending_prods bread_id ≡ none)
push_forgets_edit_example =
    push_forgets_edit memory-IsLawful willing link_state edit linked_shop bread bread_waits refl

is_linked : (sync_state linked_shop).linked ≡ true
unfolding linked_shop shop memory text_eq sync_state link
is_linked = refl

offline_fails :
    (sync_once offline 9 (λ d. d) (λ d. d) linked_shop).0 ≡ some (text "no route to host")
unfolding linked_shop shop memory text_eq sync_once link sync_state pending_products
offline_fails = refl

sync_once-failed_cursor_example :
    (sync_once offline 9 (λ d. d) (λ d. d) linked_shop).1.sync_state.cursor
    ≡ linked_shop.sync_state.cursor
sync_once-failed_cursor_example =
    sync_once-failed_cursor offline 9 (λ d. d) (λ d. d) linked_shop (text "no route to host")
      (λ db. refl) (λ db. refl) offline_fails
