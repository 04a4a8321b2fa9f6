-- ===== src/RpcServer/Services.antt =====
-- The table of services: what is found after registrations, and its order.
use starry.Common.{
  ◌≡◌, refl, ap, sym, ◌∙◌, inl, inr, Bool, true, false, ◌||◌, List, [], ◌∷◌, Option, none, some,
  same_bytes, bytes_ltb, same_bytes_iff, bytes_ltb_irrefl, bytes_ltb_trans, bytes_total,
  if◌then◌else◌, Bool-cases, arith,
}
use starry.RpcServer.{Name, Descriptor, ServiceMap, find, insert, register_service}

pub find-insert :
    (k j : Name) (d : Descriptor) (m : ServiceMap)
    → find j (insert k d m) ≡ (if same_bytes k j then some d else find j m)
unfolding find insert
find-insert k j d [] = refl
find-insert k j d ((i, e) ∷ m) = elim (Bool-cases (bytes_ltb k i)) [
  | inl lt ↦ rw lt refl
  | inr ge ↦ elim (Bool-cases (bytes_ltb i k)) [
    | inl gt ↦
        rw (ge, gt)
          (elim (Bool-cases (same_bytes i j)) [
            | inl hit ↦ rw hit (other hit gt)
            | inr miss ↦ rw (miss, find-insert k j d m) refl
          ])
    | inr le ↦ rw (ge, le) (same (bytes_total k i ge le))
  ]
]
  where
    other :
        same_bytes i j ≡ true
        → bytes_ltb i k ≡ true
        → some e ≡ (if same_bytes k j then some d else some e)
    other hit gt = elim (Bool-cases (same_bytes k j)) [
      | inl both ↦
          let eq : i ≡ k = (same_bytes_iff i j).0 hit ∙ sym ((same_bytes_iff k j).0 both) in
          let no = bytes_ltb_irrefl k in absurd (let yes' = ap (λ x. bytes_ltb x k) eq in cc)
      | inr apart ↦ rw apart refl
    ]

    same :
        k ≡ i
        → (if same_bytes i j then some d else find j m)
          ≡ (if same_bytes k j then some d else (if same_bytes i j then some e else find j m))
    same eq = rw eq (ground arith)

-- The keys of a table, and whether a key is among some names.
abbrev pub keys : ServiceMap → List Name
keys [] = []
keys ((k, d) ∷ m) = k ∷ keys m

abbrev pub listed : Name → List Name → Bool
listed name [] = false
listed name (k ∷ ks) = same_bytes k name || listed name ks

-- Each name is smaller than all behind it: in order, and none twice.
abbrev pub Above : Name → List Name → Type 0
Above k [] = Unit
Above k (j ∷ js) = (bytes_ltb k j ≡ true) × Above k js

abbrev pub Sorted : List Name → Type 0
Sorted [] = Unit
Sorted (k ∷ ks) = Above k ks × Sorted ks

Above-trans : (a k : Name) (ks : List Name) → bytes_ltb a k ≡ true → Above k ks → Above a ks
Above-trans a k [] h v = tt
Above-trans a k (j ∷ js) h v = (bytes_ltb_trans a k j h v.0, Above-trans a k js h v.1)

insert-Above :
    (a k : Name) (d : Descriptor) (m : ServiceMap)
    → bytes_ltb a k ≡ true
    → Above a (keys m)
    → Above a (keys (insert k d m))
unfolding insert
insert-Above a k d [] h v = (h, tt)
insert-Above a k d ((i, e) ∷ m) h v = elim (Bool-cases (bytes_ltb k i)) [
  | inl lt ↦ rw lt (h, v)
  | inr ge ↦ elim (Bool-cases (bytes_ltb i k)) [
    | inl gt ↦ rw (ge, gt) (v.0, insert-Above a k d m h v.1)
    | inr le ↦ rw (ge, le) v
  ]
]

pub insert-Sorted :
    (k : Name) (d : Descriptor) (m : ServiceMap) → Sorted (keys m) → Sorted (keys (insert k d m))
unfolding insert
insert-Sorted k d [] v = (tt, tt)
insert-Sorted k d ((i, e) ∷ m) v = elim (Bool-cases (bytes_ltb k i)) [
  | inl lt ↦ rw lt ((lt, Above-trans k i (keys m) lt v.0), v)
  | inr ge ↦ elim (Bool-cases (bytes_ltb i k)) [
    | inl gt ↦ rw (ge, gt) (insert-Above i k d m gt v.0, insert-Sorted k d m v.1)
    | inr le ↦ rw (ge, le) v
  ]
]

-- Several registrations, one after another.
unfoldable pub register_all : ServiceMap → List Descriptor → ServiceMap
register_all m [] = m
register_all m (d ∷ ds) = register_all (register_service m d) ds

-- The last descriptor of that name, else what stands behind.
abbrev pub latest : Name → List Descriptor → Option Descriptor → Option Descriptor
latest name [] before = before
latest name (d ∷ ds) before =
    latest name ds (if same_bytes d.full_name name then some d else before)

pub register_all-find :
    (name : Name) (m : ServiceMap) (ds : List Descriptor)
    → find name (register_all m ds) ≡ latest name ds (find name m)
unfolding register_all register_service
register_all-find name m [] = refl
register_all-find name m (d ∷ ds) =
    register_all-find name (register_service m d) ds
    ∙ ap (latest name ds) (find-insert d.full_name name d m)

pub register_all-Sorted :
    (m : ServiceMap) (ds : List Descriptor) → Sorted (keys m) → Sorted (keys (register_all m ds))
unfolding register_all register_service
register_all-Sorted m [] v = v
register_all-Sorted m (d ∷ ds) v =
    register_all-Sorted (register_service m d) ds (insert-Sorted d.full_name d m v)

abbrev pub is_some : Option Descriptor → Bool
is_some none = false
is_some (some d) = true

pub listed-keys : (name : Name) (m : ServiceMap) → listed name (keys m) ≡ is_some (find name m)
unfolding find
listed-keys name [] = refl
listed-keys name ((k, d) ∷ m) = elim (Bool-cases (same_bytes k name)) [
  | inl hit ↦ rw hit refl
  | inr miss ↦ rw miss (listed-keys name m)
]
