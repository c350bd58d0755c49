-- ===== src/Bolt.antt =====
-- go.etcd.io/bbolt, which is not part of the repository: an interface of the bucket operations that
-- internal/store/boltstore calls. A bucket maps byte strings to values; a value is the record that
-- the source writes as JSON. `db.Update` commits what its function built or, on an error, keeps the
-- old database, which the functions of the model show by returning no new one.
pub mod Memory
use mathlib.Core.List.{Perm}
use pos_agent.Base.{◌≡◌, Option, none, some, List, [], ◌∷◌, In, Text, text_eq, ◌==◌, if◌then◌else◌}

pub record Bolt : Type 1 where
  pub Bucket : Type 0 → Type 0
  -- `CreateBucketIfNotExists` on a new file
  pub empty : (V : Type 0) → Bucket V
  -- `Get`, with `none` for nil
  pub get : (V : Type 0) → Bucket V → Text → Option V
  pub put : (V : Type 0) → Bucket V → Text → V → Bucket V
  pub delete : (V : Type 0) → Bucket V → Text → Bucket V
  -- what `ForEach`, or a cursor, visits
  pub entries : (V : Type 0) → Bucket V → List (Text × V)

-- What the source relies on: the documented behaviour of a key/value bucket.
pub record IsLawful (B : Bolt) : Type 1 where
  pub get-empty : (V : Type 0) (k : Text) → B.get V (B.empty V) k ≡ none
  pub get-put :
      (V : Type 0) (b : B.Bucket V) (k : Text) (v : V) (j : Text)
      → B.get V (B.put V b k v) j ≡ (if j == k then some v else B.get V b j)
  pub get-delete :
      (V : Type 0) (b : B.Bucket V) (k j : Text)
      → B.get V (B.delete V b k) j ≡ (if j == k then none else B.get V b j)
  pub entries-empty : (V : Type 0) → B.entries V (B.empty V) ≡ []
  -- an iteration visits each pair once
  pub get_of_In :
      (V : Type 0) (b : B.Bucket V) (k : Text) (v : V)
      → In (k, v) (B.entries V b)
      → B.get V b k ≡ some v
  pub In_of_get :
      (V : Type 0) (b : B.Bucket V) (k : Text) (v : V)
      → B.get V b k ≡ some v
      → In (k, v) (B.entries V b)
  pub entries-put_new :
      (V : Type 0) (b : B.Bucket V) (k : Text) (v : V)
      → B.get V b k ≡ none
      → Perm (B.entries V (B.put V b k v)) ((k, v) ∷ B.entries V b)
