-- ===== src/Budget/Invariant/Sums.antt =====
-- Sums over the reservations, in all and for one group.
use kungfukid_local_server.Base.{
  ℕ, ◌+◌, ◌≤◌, ◌≡◌, refl, Bool, false, Option, none, some, [], ◌∷◌, ◌⊎◌, arith, ◌==◌, if◌then◌else◌,
  nat_eq,
}
use kungfukid_local_server.Base.Dict.{Dict, lookup, insert, erase, lookup-insert, lookup-erase}
use kungfukid_local_server.Budget.{count, book}

-- The sum of a dict's values.
abbrev pub total : Dict ℕ ℕ → ℕ
total [] = 0
total ((_, v) ∷ d) = v + total d

-- No key stands twice.
abbrev pub IsKeyed : Dict ℕ ℕ → Type 0
IsKeyed [] = Unit
IsKeyed ((k, _) ∷ d) = (lookup k d ≡ none) × IsKeyed d

total-erase_absent : (k : ℕ) (d : Dict ℕ ℕ) → lookup k d ≡ none → total (erase k d) ≡ total d
total-erase_absent k [] h = refl
total-erase_absent k ((j, v) ∷ d) h = ground (arith, total-erase_absent k d)

total-erase : (k : ℕ) (d : Dict ℕ ℕ) → IsKeyed d → total (erase k d) + count k d ≡ total d
total-erase k [] h = omega arith
total-erase k ((j, v) ∷ d) h = ground (arith, total-erase k d h.1, total-erase_absent k d)

total-insert : (k v : ℕ) (d : Dict ℕ ℕ) → total (insert k v d) + count k d ≡ total d + v
total-insert k v [] = omega arith
total-insert k v ((j, w) ∷ d) = ground (arith, total-insert k v d)

pub total-book : (k v : ℕ) (d : Dict ℕ ℕ) → IsKeyed d → total (book k v d) + count k d ≡ total d + v
total-book k v d h = ground (arith, total-erase k d h, total-insert k v d)

IsKeyed-insert : (k v : ℕ) (d : Dict ℕ ℕ) → IsKeyed d → IsKeyed (insert k v d)
IsKeyed-insert k v [] h = (refl, tt)
IsKeyed-insert k v ((j, w) ∷ d) h = ground (arith, IsKeyed-insert k v d h.1, lookup-insert k j v d)

IsKeyed-erase : (k : ℕ) (d : Dict ℕ ℕ) → IsKeyed d → IsKeyed (erase k d)
IsKeyed-erase k [] h = tt
IsKeyed-erase k ((j, w) ∷ d) h = ground (arith, IsKeyed-erase k d h.1, lookup-erase k j d)

pub IsKeyed-book : (k v : ℕ) (d : Dict ℕ ℕ) → IsKeyed d → IsKeyed (book k v d)
IsKeyed-book k v d h = ground (arith, IsKeyed-insert k v d h, IsKeyed-erase k d h)

abbrev pub in_group : Option ℕ → ℕ → Bool
in_group none g = false
in_group (some h) g = h == g

-- The sum of the values whose owner is booked under `g`.
abbrev pub group_total : ℕ → Dict ℕ ℕ → Dict ℕ ℕ → ℕ
group_total g groups [] = 0
group_total g groups ((o, v) ∷ d) =
    (if in_group (lookup o groups) g then v else 0) + group_total g groups d

-- A change at an owner that holds no reservation changes no sum.
group_total-insert_absent :
    (g o h : ℕ) (groups d : Dict ℕ ℕ)
    → lookup o d ≡ none
    → group_total g (insert o h groups) d ≡ group_total g groups d
group_total-insert_absent g o h groups [] e = refl
group_total-insert_absent g o h groups ((j, v) ∷ d) e =
    ground (arith, group_total-insert_absent g o h groups d, lookup-insert o j h groups)

group_total-erase_absent :
    (g o : ℕ) (groups d : Dict ℕ ℕ)
    → lookup o d ≡ none
    → group_total g (erase o groups) (erase o d) ≡ group_total g groups d
group_total-erase_absent g o groups [] e = refl
group_total-erase_absent g o groups ((j, v) ∷ d) e =
    ground (arith, group_total-erase_absent g o groups d, lookup-erase o j groups)

pub group_total-insert :
    (g o h v : ℕ) (groups d : Dict ℕ ℕ)
    → (lookup o groups ≡ some h) ⊎ (lookup o d ≡ none)
    → IsKeyed d
    → group_total g (insert o h groups) (insert o v d) + (if h == g then count o d else 0)
      ≡ group_total g groups d + (if h == g then v else 0)
group_total-insert g o h v groups [] known k = ground (arith, lookup-insert o o h groups)
group_total-insert g o h v groups ((j, w) ∷ d) known k = ground (
  arith,
  group_total-insert g o h v groups d,
  lookup-insert o j h groups,
  group_total-insert_absent g o h groups d,
)

pub group_total-erase :
    (g o h : ℕ) (groups d : Dict ℕ ℕ)
    → (lookup o groups ≡ some h) ⊎ (lookup o d ≡ none)
    → IsKeyed d
    → group_total g (erase o groups) (erase o d) + (if h == g then count o d else 0)
      ≡ group_total g groups d
group_total-erase g o h groups [] known k = ground arith
group_total-erase g o h groups ((j, w) ∷ d) known k = ground (
  arith,
  group_total-erase g o h groups d,
  lookup-erase o j groups,
  group_total-erase_absent g o groups d,
)

pub count-le-group_total :
    (o k : ℕ) (groups d : Dict ℕ ℕ) → lookup o groups ≡ some k → count o d ≤ group_total k groups d
count-le-group_total o k groups [] e = omega arith
count-le-group_total o k groups ((j, v) ∷ d) e = ground (arith, count-le-group_total o k groups d)

pub count-le-total : (o : ℕ) (d : Dict ℕ ℕ) → count o d ≤ total d
count-le-total o [] = omega arith
count-le-total o ((j, v) ∷ d) = ground (arith, count-le-total o d)
