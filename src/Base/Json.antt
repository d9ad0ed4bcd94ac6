-- ===== src/Base/Json.antt =====
-- JSON values of the columns of type JSON, with Python's dict operations on objects.
use Prim.Native.Nat.{ℕ}
use mathlib.Core.Bool.{Bool}
use mathlib.Core.Option.{Option, none, some}
use elp_gemini.Base.Tests.{if◌then◌else◌}
use elp_gemini.Base.Texts.{Text, text_eq}

mutual
  pub data Json : Type 0 where
    null : Json
    bool : Bool → Json
    num : ℕ → Json
    str : Text → Json
    arr : Items → Json
    obj : Fields → Json

  pub data Items : Type 0 where
    nil : Items
    cons : Json → Items → Items

  pub data Fields : Type 0 where
    end : Fields
    field : Text → Json → Fields → Fields

-- `d.get(k)`
unfoldable pub get : Fields → Text → Option Json
get end k = none
get (field j v fs) k = if text_eq j k then some v else get fs k

-- `d[k] = v`: a key that is there keeps its place.
unfoldable pub put : Fields → Text → Json → Fields
put end k v = field k v end
put (field j w fs) k v = if text_eq j k then field j v fs else field j w (put fs k v)

-- `{**d, **e}`
unfoldable pub merge : Fields → Fields → Fields
unfolding put
merge d end = d
merge d (field k v fs) = merge (put d k v) fs

abbrev pub or_null : Option Json → Json
or_null none = null
or_null (some v) = v
