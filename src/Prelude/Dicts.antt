-- ===== src/Prelude/Dicts.antt =====
-- A JavaScript `Map` with string keys, as an association list in insertion order.
use mathlib.Core.Path.{◌≡◌, refl}
use mathlib.Core.Bool.{Bool}
use mathlib.Core.List.{List, [], ◌∷◌}
use mathlib.Core.Option.{Option, none, some}
use native.Mathlib.Omega.{arith}
use multi_rpc.Prelude.Tests.{if◌then◌else◌}
use multi_rpc.Prelude.Texts.{Text, text_eq, text_eq_iff}

abbrev pub Dict {ℓ} : Type ℓ → Type ℓ
Dict V = List (Text × V)

module _ {ℓ} {V : Type ℓ} where
  -- `m.get(k)`
  unfoldable pub get : Text → Dict V → Option V
  get k [] = none
  get k ((j, v) ∷ m) = if text_eq j k then some v else get k m

  -- `m.set(k, v)`: a key that is there keeps its place, a new one goes to the end.
  unfoldable pub set : Text → V → Dict V → Dict V
  set k v [] = (k, v) ∷ []
  set k v ((j, w) ∷ m) = if text_eq j k then (j, v) ∷ m else (j, w) ∷ set k v m

  -- `m.delete(k)`
  unfoldable pub delete : Text → Dict V → Dict V
  delete k [] = []
  delete k ((j, w) ∷ m) = if text_eq j k then delete k m else (j, w) ∷ delete k m

  pub get-set :
      (k j : Text) (v : V) (m : Dict V)
      → get j (set k v m) ≡ (if text_eq k j then some v else get j m)
  unfolding get set
  get-set k j v [] = refl
  get-set k j v ((i, w) ∷ m) =
      ground (arith, text_eq_iff i k, text_eq_iff k j, text_eq_iff i j, get-set k j v m)

  pub get-delete :
      (k j : Text) (m : Dict V) → get j (delete k m) ≡ (if text_eq k j then none else get j m)
  unfolding get delete
  get-delete k j [] = ground arith
  get-delete k j ((i, w) ∷ m) =
      ground (arith, text_eq_iff i k, text_eq_iff k j, text_eq_iff i j, get-delete k j m)

  -- A write through a reference to the object stored under `k`.
  unfoldable pub modify : Text → (V → V) → Dict V → Dict V
  modify k f [] = []
  modify k f ((j, w) ∷ m) = if text_eq j k then (j, f w) ∷ m else (j, w) ∷ modify k f m

  -- `m.forEach((v, k) => { if (p(v)) m.delete(k); })`
  unfoldable pub remove_where : (V → Bool) → Dict V → Dict V
  remove_where p [] = []
  remove_where p ((j, w) ∷ m) = if p w then remove_where p m else (j, w) ∷ remove_where p m

  abbrev pub keep_unless : (V → Bool) → Option V → Option V
  keep_unless p none = none
  keep_unless p (some v) = if p v then none else some v

  abbrev pub change : (V → V) → Option V → Option V
  change f none = none
  change f (some v) = some (f v)

  -- No key stands twice: what makes an association list a map.
  abbrev pub Distinct : Dict V → Type ℓ
  Distinct [] = Unit
  Distinct ((k, v) ∷ m) = (get k m ≡ none) × Distinct m

  pub get-modify :
      (k j : Text) (f : V → V) (m : Dict V)
      → get j (modify k f m) ≡ (if text_eq k j then change f (get j m) else get j m)
  unfolding get modify
  get-modify k j f [] = ground arith
  get-modify k j f ((i, w) ∷ m) =
      ground (arith, text_eq_iff i k, text_eq_iff k j, text_eq_iff i j, get-modify k j f m)

  get-remove_where-none :
      (p : V → Bool) (k : Text) (m : Dict V) → get k m ≡ none → get k (remove_where p m) ≡ none
  unfolding get remove_where
  get-remove_where-none p k [] h = refl
  get-remove_where-none p k ((j, w) ∷ m) h = ground (arith, get-remove_where-none p k m)

  pub get-remove_where :
      (p : V → Bool) (k : Text) (m : Dict V)
      → Distinct m
      → get k (remove_where p m) ≡ keep_unless p (get k m)
  unfolding get remove_where
  get-remove_where p k [] d = refl
  get-remove_where p k ((j, w) ∷ m) d =
      ground (arith, text_eq_iff j k, get-remove_where p k m d.1, get-remove_where-none p k m)

  pub set-Distinct : (k : Text) (v : V) (m : Dict V) → Distinct m → Distinct (set k v m)
  unfolding set get
  set-Distinct k v [] d = (refl, tt)
  set-Distinct k v ((j, w) ∷ m) d =
      ground (arith, text_eq_iff j k, text_eq_iff k j, get-set k j v m, set-Distinct k v m d.1)

  pub modify-Distinct : (k : Text) (f : V → V) (m : Dict V) → Distinct m → Distinct (modify k f m)
  unfolding modify
  modify-Distinct k f [] d = tt
  modify-Distinct k f ((j, w) ∷ m) d =
      ground
        (arith, text_eq_iff k j, text_eq_iff j k, get-modify k j f m, modify-Distinct k f m d.1)

  pub remove_where-Distinct : (p : V → Bool) (m : Dict V) → Distinct m → Distinct (remove_where p m)
  unfolding remove_where
  remove_where-Distinct p [] d = tt
  remove_where-Distinct p ((j, w) ∷ m) d =
      ground (arith, get-remove_where-none p j m d.0, remove_where-Distinct p m d.1)

  pub delete-Distinct : (k : Text) (m : Dict V) → Distinct m → Distinct (delete k m)
  unfolding delete
  delete-Distinct k [] d = tt
  delete-Distinct k ((j, w) ∷ m) d = ground (arith, get-delete k j m, delete-Distinct k m d.1)
