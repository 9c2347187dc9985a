-- ===== src/Agent/Json.antt =====
-- Values of the json library, as src/runtime/app_server_runtime.py reads the answers of the agent's server.
use tele_cli.Prelude.{
  ℤ, String, Bool, true, false, ◌==◌, string_eq, is_truthy, strip, lower_is, if◌then◌else◌, ◌||◌,
  not,
}

mutual
  -- a value; of the numbers only whole ones are told apart
  pub data Json : Type 0 where
    null : Json
    boolean : Bool → Json
    number : ℤ → Json
    text : String → Json
    array : Items → Json
    object : Fields → Json

  pub data Items : Type 0 where
    nil : Items
    cons : Json → Items → Items

  -- a dict, in the order of its keys
  pub data Fields : Type 0 where
    end : Fields
    field : String → Json → Fields → Fields

-- bool(x)
unfoldable pub truthy : Json → Bool
truthy null = false
truthy (boolean b) = b
truthy (number n) = is_truthy n
truthy (text s) = not (s == "")
truthy (array nil) = false
truthy (array (cons x xs)) = true
truthy (object end) = false
truthy (object (field k x fs)) = true

-- x or y
unfoldable pub or_else : Json → Json → Json
unfolding truthy
or_else x y = if truthy x then x else y

-- d.get(key)
unfoldable pub get : String → Fields → Json
get key end = null
get key (field k x fs) = if k == key then x else get key fs

-- key in d
unfoldable pub has_key : String → Fields → Bool
has_key key end = false
has_key key (field k x fs) = k == key || has_key key fs

-- d[key] = x
unfoldable pub put : String → Json → Fields → Fields
put key x end = field key x end
put key x (field k y fs) = if k == key then field k x fs else field k y (put key x fs)

-- d.setdefault(key, x)
unfoldable pub set_default : String → Json → Fields → Fields
unfolding has_key put
set_default key x fs = if has_key key fs then fs else put key x fs

-- x if isinstance(x, dict) else {}
unfoldable pub fields_of : Json → Fields
fields_of (object fs) = fs
fields_of _ = end

-- isinstance(x, dict)
unfoldable pub is_object : Json → Bool
is_object (object fs) = true
is_object _ = false

-- isinstance(x, str) and x.strip()
unfoldable pub is_filled_text : Json → Bool
unfolding strip
is_filled_text (text s) = not (strip s == "")
is_filled_text _ = false

-- x is True
unfoldable pub is_true : Json → Bool
is_true (boolean b) = b
is_true _ = false

-- str(x).lower() == word, for a word that is the text of no other value
unfoldable pub lower_equals : Json → (word : String) → Bool
unfolding lower_is
lower_equals (text s) word = lower_is s word
lower_equals _ word = false
