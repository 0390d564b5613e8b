-- ===== src/Json.antt =====
-- A decoded JSON document, and how Python reads one: `body["k"]`, `body.get("k")`, iteration, truth.
-- A reading that Python ends with TypeError or AttributeError is `wrong_type` here.
use hound_bot.Base.{
  String, Bool, true, false, not, Option, none, some, List, [], ◌∷◌, ◌==◌, string_eq, if◌then◌else◌,
}

mutual
  -- A number is its literal and whether it is not zero.
  pub data Json : Type 0 where
    null : Json
    boolean : Bool → Json
    number : (literal : String) (nonzero : Bool) → Json
    text : String → Json
    array : Items → Json
    object : Members → Json

  pub data Items : Type 0 where
    no_items : Items
    item : Json → Items → Items

  pub data Members : Type 0 where
    no_members : Members
    key : String → Json → Members → Members

pub data JsonError : Type 0 where
  key_error : String → JsonError
  index_error : JsonError
  wrong_type : JsonError

pub data Read {ℓ} (A : Type ℓ) : Type ℓ where
  got : A → Read A
  failed : JsonError → Read A

abbrev pub find_member : String → Members → Option Json
find_member k no_members = none
find_member k (key k' j rest) = if k' == k then some j else find_member k rest

-- `body.get(k)`, none where the key is missing
abbrev pub get : String → Json → Read (Option Json)
get k (object members) = got (find_member k members)
get k _ = failed wrong_type

abbrev pub or_key_error : String → Option Json → Read Json
or_key_error k none = failed (key_error k)
or_key_error k (some j) = got j

-- `body[k]`
abbrev pub member : String → Json → Read Json
member k (object members) = or_key_error k (find_member k members)
member k _ = failed wrong_type

abbrev pub then_read : {A B : Type 0} → Read A → (A → Read B) → Read B
then_read (got a) f = f a
then_read (failed e) f = failed e

-- `body[k1][k2]...`
abbrev pub path : List String → Json → Read Json
path [] j = got j
path (k ∷ ks) j = then_read (member k j) (path ks)

abbrev pub keys_of : Members → Items
keys_of no_members = no_items
keys_of (key k j rest) = item (text k) (keys_of rest)

abbrev pub characters : String → Items
characters String.[] = no_items
characters (String.◌∷◌ c s) = item (text (String.◌∷◌ c String.[])) (characters s)

-- What `for x in j` runs over.
abbrev pub elements : Json → Read Items
elements (array xs) = got xs
elements (object members) = got (keys_of members)
elements (text s) = got (characters s)
elements _ = failed wrong_type

abbrev pub some_items : Items → Bool
some_items no_items = false
some_items (item _ _) = true

abbrev pub some_members : Members → Bool
some_members no_members = false
some_members (key _ _ _) = true

-- `if j:`, where a missing value is None
abbrev pub is_true : Option Json → Bool
is_true none = false
is_true (some null) = false
is_true (some (boolean b)) = b
is_true (some (number _ nonzero)) = nonzero
is_true (some (text s)) = not (s == "")
is_true (some (array xs)) = some_items xs
is_true (some (object members)) = some_members members

-- `j == s`
abbrev pub is_text : String → Option Json → Bool
is_text s (some (text t)) = t == s
is_text s _ = false

-- Where a text is needed: `s.encode()`, a text column, `datetime.fromisoformat`.
abbrev pub as_text : Json → Read String
as_text (text s) = got s
as_text _ = failed wrong_type

abbrev pub or_else : Json → Option Json → Json
or_else default none = default
or_else default (some j) = j

-- A nullable text column.
abbrev pub column_text : Json → Read (Option String)
column_text null = got none
column_text (text s) = got (some s)
column_text _ = failed wrong_type

abbrev pub items_of : List Json → Items
items_of [] = no_items
items_of (j ∷ js) = item j (items_of js)
