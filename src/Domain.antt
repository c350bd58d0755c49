-- ===== src/Domain.antt =====
-- internal/store/store.go: the domain types, the names of settings and their defaults. Money is
-- `int64` and counts and rates are `int`, both signed (Base/Int.antt). A `time.Time` is an instant
-- in nanoseconds since the zero time, which is 0.
pub mod Keys
use pos_agent.Base.{ℕ, Bool, Option, none, List, [], Text, nat_eqb, ltb, not}
use pos_agent.Base.Int.{ℤ, pos}

abbrev pub Time : Type 0
Time = ℕ

abbrev pub is_zero : Time → Bool
is_zero t = nat_eqb t 0

abbrev pub before : Time → Time → Bool
before t u = ltb t u

abbrev pub after : Time → Time → Bool
after t u = ltb u t

pub record Product : Type 0 where
  pub id : Text
  pub name : Text
  pub price_cents : ℤ
  pub barcode : Text
  pub track_stock : Bool
  pub stock : ℤ
  pub taxable : Bool
  pub active : Bool
  pub updated_at : Time
  pub deleted_at : Option Time

pub record ProductDraft : Type 0 where
  pub name : Text
  pub price_cents : ℤ
  pub barcode : Text
  pub track_stock : Bool
  pub stock : ℤ
  pub taxable : Bool

-- The reasons of a stock event: `StockInitial`, `StockRestock`, `StockAdjustment`.
pub data StockReason : Type 0 where
  initial restock adjustment : StockReason

pub record StockEvent : Type 0 where
  pub id : Text
  pub product_id : Text
  pub delta : ℤ
  pub reason : StockReason
  pub created_at : Time

pub record SaleItem : Type 0 where
  pub product_id : Text
  pub name : Text
  pub price_cents : ℤ
  pub qty : ℤ
  pub taxable : Bool
  pub tax_cents : ℤ

pub record SaleLine : Type 0 where
  pub product_id : Text
  pub qty : ℤ

pub record SaleInput : Type 0 where
  pub lines : List SaleLine
  pub paid_cents : ℤ
  pub payment_method : Text
  pub reference : Text

pub record SearchCriteria : Type 0 where
  pub reference : Text
  pub item_name : Text
  pub payment_method : Text
  pub start : Time
  pub end : Time
  pub min_cents : ℤ
  pub max_cents : ℤ
  pub limit : ℤ

pub record Sale : Type 0 where
  pub id : Text
  pub created_at : Time
  pub items : List SaleItem
  pub subtotal_cents : ℤ
  pub tax_cents : ℤ
  pub total_cents : ℤ
  pub paid_cents : ℤ
  pub change_cents : ℤ
  pub payment_method : Text
  pub reference : Text
  pub tax_rate_bps : ℤ
  pub tax_mode : Text

pub record AuditEntry : Type 0 where
  pub id : Text
  pub at : Time
  pub action : Text
  pub detail : Text

pub record SyncState : Type 0 where
  pub linked : Bool
  pub base_url : Text
  pub shop_id : Text
  pub email : Text
  pub token : Text
  pub cursor : ℤ
  pub last_sync : Time
  pub last_error : Text
