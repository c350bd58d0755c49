-- ===== src/Web/Server/Catalogue.antt =====
-- internal/web/server.go, "Catalogue".
use pos_agent.Base.{
  Bool, true, false, ◌||◌, Option, none, some, [], ◌++◌, Text, text, text_eq, ◌==◌, if◌then◌else◌,
}
use pos_agent.Base.Int.{ℤ, pos, ltb_ℤ, eqb_ℤ}
use pos_agent.Bolt.{Bolt}
use pos_agent.Domain.{ProductDraft}
use pos_agent.Boltstore.Db.{Error}
use pos_agent.Boltstore.Products.{products, add_product, update_product, delete_product}
use pos_agent.Boltstore.Stock.{restock_product}
use pos_agent.Web.Server.{
  Method, get, post, other, World, Answer, Outside, reply, refuse, only_post, with_body,
  after_store, nudge_sync, capitalize, error_text, all_products, one_product, done,
}

-- `map[string]json.RawMessage`: the fields that a product form may have. A field is `none` where it
-- is missing or its JSON is not of the field's type.
pub record Fields : Type 0 where
  pub id : Option Text
  pub name : Option Text
  pub price_cents : Option ℤ
  pub barcode : Option Text
  pub track_stock : Option Bool
  pub stock : Option ℤ
  pub taxable : Option Bool

-- `json.Unmarshal` into a variable that holds a value already
abbrev pub or_else {ℓ} : {A : Type ℓ} → A → Option A → A
or_else held none = held
or_else held (some v) = v

-- `draftFromFields`, with `none` for its refusal
unfoldable pub draft_from_fields : Fields → Option ProductDraft
draft_from_fields raw =
    let name = or_else [] raw.name in
    let price_cents = or_else (pos 0) raw.price_cents in
    let track_stock = or_else false raw.track_stock in
    let stock = or_else (pos 0) raw.stock in
    let counted = if ltb_ℤ stock (pos 0) then pos 0 else stock in
    if name == [] || ltb_ℤ price_cents (pos 0)
    then none
    else some (record {
      name = name;
      price_cents = price_cents;
      barcode = or_else [] raw.barcode;
      track_stock = track_stock;
      stock = if track_stock then counted else pos 0;
      taxable = or_else true raw.taxable;
    })

abbrev pub no_name : Text
no_name = text "Please enter a name and a price."

abbrev pub unreadable : Text
unreadable = text "Could not read the item."

abbrev pub no_item : Text
no_item = text "No item was selected."

-- A quantity to restock: the body of `handleProductRestock`.
pub record RestockForm : Type 0 where
  pub id : Text
  pub qty : ℤ

-- The text of an error of the store as a sentence.
abbrev pub sentence : Outside → Error → Text
sentence o e = capitalize (error_text o e) ++ text "."

module _ {B : Bolt} (o : Outside) where
  -- `handleProducts`
  unfoldable pub handle_products : Method → Option Fields → World B → Answer B
  unfolding draft_from_fields
  handle_products get body w = reply (all_products (products w.db)) w
  handle_products post body w = with_body body unreadable w (λ raw.
      with_body (draft_from_fields raw) no_name w (λ draft.
        after_store (add_product o.now o.draws true draft w.db)
          (λ e. text "Could not save the item. " ++ capitalize (error_text o e)) w
          (λ p w'. reply (one_product p) (nudge_sync o w'))))
  handle_products other body w = refuse 405 (text "Method not allowed.") w

  -- `handleProductUpdate`
  unfoldable pub handle_product_update : Method → Option Fields → World B → Answer B
  unfolding draft_from_fields
  handle_product_update method body w = only_post method w (
      with_body body unreadable w (λ raw.
        let id = or_else [] raw.id in
        if id == []
        then refuse 400 no_item w
        else with_body (draft_from_fields raw) no_name w (λ draft.
          after_store (update_product o.now o.draws id draft w.db) (sentence o) w
            (λ p w'. reply (one_product p) (nudge_sync o w')))))

  -- `handleProductDelete`
  unfoldable pub handle_product_delete : Method → Option Text → World B → Answer B
  handle_product_delete method body w = only_post method w (
      with_body body no_item w (λ id.
        if id == []
        then refuse 400 no_item w
        else after_store (delete_product o.now o.draws id w.db) (sentence o) w
            (λ _ w'. reply done (nudge_sync o w'))))

  -- `handleProductRestock`
  unfoldable pub handle_product_restock : Method → Option RestockForm → World B → Answer B
  handle_product_restock method body w = only_post method w (
      with_body body no_item w (λ form.
        if form.id == []
        then refuse 400 no_item w
        else if eqb_ℤ form.qty (pos 0)
        then refuse 400 (text "Enter how many to add.") w
        else after_store (restock_product o.now o.draws form.id form.qty w.db) (sentence o) w
            (λ p w'. reply (one_product p) (nudge_sync o w'))))
