-- ===== src/Json.antt =====
-- JavaScript values as JSON parsing gives them, and reading their properties. Numbers are integers.
use multi_rpc.Prelude.{
  Bool, true, false, List, [], ◌∷◌, Text, lit, text_eq, if◌then◌else◌, ℤ, Result, ok, err,
}

mutual
  pub data Json : Type 0 where
    undefined null : Json
    bool : Bool → Json
    num : ℤ → Json
    str : Text → Json
    arr : Items → Json
    obj : Fields → Json

  pub data Items : Type 0 where
    nil : Items
    cons : Json → Items → Items

  pub data Fields : Type 0 where
    end : Fields
    field : Text → Json → Fields → Fields

unfoldable pub items : Items → List Json
items nil = []
items (cons v vs) = v ∷ items vs

unfoldable pub lookup_field : Text → Fields → Json
lookup_field k end = undefined
lookup_field k (field j v fs) = if text_eq j k then v else lookup_field k fs

-- `v.name`, for a name that arrays, strings and numbers do not have
unfoldable pub property : Text → Json → Result Json
property name undefined = err (lit "Cannot read properties of undefined")
property name null = err (lit "Cannot read properties of null")
property name (obj fs) = ok (lookup_field name fs)
property name _ = ok undefined

-- `Array.isArray(v)`
unfoldable pub is_array : Json → Bool
is_array (arr vs) = true
is_array _ = false

-- the elements of a batch, or the one request
unfoldable pub elements : Json → List Json
elements (arr vs) = items vs
elements v = v ∷ []
