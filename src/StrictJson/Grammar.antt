-- ===== src/StrictJson/Grammar.antt =====
-- JSON values as trees, and what strictjson/strictjson.go promises of them: the tokens of a value,
-- its depth, and whether each object's member names are pairwise different.
use go_toolbelt.Base.{ℕ, suc, Bool, true, ◌&&◌, String, List, [], ◌∷◌, distinct}
use go_toolbelt.StrictJson.{Token, delim, text, scalar, Scalar}
use Prim.Native.Nat.{max}

mutual
  pub data Value : Type 0 where
    atom : Scalar → Value
    string : String → Value
    object : Fields → Value
    array : Items → Value

  pub data Fields : Type 0 where
    end : Fields
    field : String → Value → Fields → Fields
    -- A last member name with no value, which `json.Decoder` reports itself and never delivers.
    dangling : String → Fields

  pub data Items : Type 0 where
    nil : Items
    cons : Value → Items → Items

unfoldable pub names : Fields → List String
names end = []
names (field k v fs) = k ∷ names fs
names (dangling k) = k ∷ []

unfoldable mutual
  -- The tokens of a value, with the tokens behind it.
  pub print : Value → List Token → List Token
  print (atom s) rest = scalar s ∷ rest
  print (string k) rest = text k ∷ rest
  print (object fs) rest = delim b'{' ∷ print_fields fs rest
  print (array xs) rest = delim b'[' ∷ print_items xs rest

  pub print_fields : Fields → List Token → List Token
  print_fields end rest = delim b'}' ∷ rest
  print_fields (field k v fs) rest = text k ∷ print v (print_fields fs rest)
  print_fields (dangling k) rest = text k ∷ delim b'}' ∷ rest

  pub print_items : Items → List Token → List Token
  print_items nil rest = delim b']' ∷ rest
  print_items (cons v xs) rest = print v (print_items xs rest)

unfoldable mutual
  -- How many containers stand inside one another.
  pub depth : Value → ℕ
  depth (atom s) = 0
  depth (string k) = 0
  depth (object fs) = suc (depth_fields fs)
  depth (array xs) = suc (depth_items xs)

  pub depth_fields : Fields → ℕ
  depth_fields end = 0
  depth_fields (field k v fs) = max (depth v) (depth_fields fs)
  depth_fields (dangling k) = 0

  pub depth_items : Items → ℕ
  depth_items nil = 0
  depth_items (cons v xs) = max (depth v) (depth_items xs)

unfoldable mutual
  unfolding names distinct

  -- In every object of the value the member names are pairwise different.
  pub has_unique_names : Value → Bool
  has_unique_names (atom s) = true
  has_unique_names (string k) = true
  has_unique_names (object fs) = distinct (names fs) && unique_fields fs
  has_unique_names (array xs) = unique_items xs

  pub unique_fields : Fields → Bool
  unique_fields end = true
  unique_fields (field k v fs) = has_unique_names v && unique_fields fs
  unique_fields (dangling k) = true

  pub unique_items : Items → Bool
  unique_items nil = true
  unique_items (cons v xs) = has_unique_names v && unique_items xs
