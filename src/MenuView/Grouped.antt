-- ===== src/MenuView/Grouped.antt =====
-- backend/internal/domain/menuview/compile.go, `compiler.groups`: the modifier groups of a build are
-- those that its items use.
use posserver.Prelude.{
  contains_last, All, contains-append, IsDistinct, IsDistinct-append, String, ◌≡◌, refl, ap, ◌∙◌,
  inl, inr, Bool, true, false, Option, none, some, List, [], ◌∷◌, ◌++◌, arith, if◌then◌else◌,
  Bool-cases, str_eq_iff, ◌<>◌, contains, lookup,
}
use posserver.Prelude.Int.{ℤ}
use posserver.Prelude.Strings.{trim_space, to_lower, CaseTables}
use posserver.MenuView.Types.{BuildItem, BuildCategory, BuildGroup}
use posserver.MenuView.Bank.{Bank, BankGroup, BankCategory}
use posserver.MenuView.View.{Rules, Entry}
use posserver.MenuView.Compiler.{
  Compiler, BankCat, NeedsAttention, attention, put, put_found, put_named, see_group, see_found,
  add_found, groups, build_group,
}
use posserver.MenuView.Compile.{is_set, put_shown, opened}
use posserver.MenuView.Shelves.{
  AllItems, AllItems-weaken, put_item-AllItems, open_category-AllItems,
}

-- The bank lists each group under its own id.
abbrev pub AreKeyed : List (String × BankGroup) → Type 0
AreKeyed [] = Unit
AreKeyed ((id, g) ∷ gs) = (g.id ≡ id) × AreKeyed gs

lookup-AreKeyed :
    (id : String) (gs : List (String × BankGroup)) (g : BankGroup)
    → AreKeyed gs
    → lookup id gs ≡ some g
    → g.id ≡ id
unfolding lookup
lookup-AreKeyed id [] g k h = cc
lookup-AreKeyed id ((j, f) ∷ gs) g (k, ks) h =
    ground (arith, str_eq_iff j id, lookup-AreKeyed id gs g ks)

abbrev pub group_ids : List BuildGroup → List String
group_ids [] = []
group_ids (g ∷ gs) = g.id ∷ group_ids gs

group_ids-append : (xs ys : List BuildGroup) → group_ids (xs ++ ys) ≡ group_ids xs ++ group_ids ys
group_ids-append [] ys = refl
group_ids-append (x ∷ xs) ys = ap (λ t. x.id ∷ t) (group_ids-append xs ys)

-- Each of the ids is one of `seen`.
abbrev pub AreListed : List String → List String → Type 0
AreListed seen = All (λ (id : String). contains seen id ≡ true)

pub AreListed-append :
    (seen more ids : List String) → AreListed seen ids → AreListed (seen ++ more) ids
AreListed-append seen more [] p = tt
AreListed-append seen more (id ∷ ids) (p, ps) =
    (ground (arith, contains-append seen more id), AreListed-append seen more ids ps)

-- `seen'` has all of `seen`.
pub record Grows (seen seen' : List String) : Type 0 where
  pub keeps : (ids : List String) → AreListed seen ids → AreListed seen' ids

pub Grows-refl : (seen : List String) → Grows seen seen
Grows-refl seen = record { keeps = λ ids p. p }

Grows-append : (seen more : List String) → Grows seen (seen ++ more)
Grows-append seen more = record { keeps = AreListed-append seen more }

pub Grows-trans : (s t u : List String) → Grows s t → Grows t u → Grows s u
Grows-trans s t u f g = record { keeps = λ ids p. g.keeps ids (f.keeps ids p) }

module _ (P : BuildItem → Type 0) where
  -- An item that uses listed groups, and of which `P` holds.
  abbrev pub IsGood : List String → BuildItem → Type 0
  IsGood seen bi = AreListed seen bi.modifier_group_ids × P bi

  pub record IsGrouped (c : Compiler) : Type 0 where
    pub listed : group_ids c.modifier_groups ≡ c.group_seen
    pub once : IsDistinct c.group_seen
    pub good : AllItems (IsGood c.group_seen) c.cats

  pub record Sees (c : Compiler) (ids : List String) (c' : Compiler) : Type 0 where
    pub grouped : IsGrouped c'
    pub grows : Grows c.group_seen c'.group_seen
    pub uses : AreListed c'.group_seen ids

  pub IsGood-Grows :
      (seen seen' : List String) (cats : List BuildCategory)
      → Grows seen seen'
      → AllItems (IsGood seen) cats
      → AllItems (IsGood seen') cats
  IsGood-Grows seen seen' cats g =
      AllItems-weaken (IsGood seen) (IsGood seen') cats
        (λ bi p. (g.keeps bi.modifier_group_ids p.0, p.1))

  see_group-Sees :
      (rules : Rules) (id : String) (g : BankGroup) (c : Compiler)
      → g.id ≡ id
      → IsGrouped c
      → Sees c (id ∷ []) (see_group rules id g c)
  unfolding see_group
  see_group-Sees rules id g c k v = elim (Bool-cases (contains c.group_seen id)) [
    | inl old ↦ rw old (record { grouped = v; grows = Grows-refl _; uses = (old, tt) })
    | inr new ↦ rw new (record {
      grouped = record {
        listed = group_ids-append c.modifier_groups (build_group rules g ∷ []) ∙ cc (v.listed, k);
        once = IsDistinct-append c.group_seen id v.once new;
        good = IsGood-Grows _ _ c.cats (Grows-append c.group_seen (id ∷ [])) v.good;
      };
      grows = Grows-append c.group_seen (id ∷ []);
      uses = (contains_last c.group_seen id, tt);
    })
  ]

  see_found-Sees :
      (rules : Rules) (id : String) (found : Option BankGroup) (c : Compiler)
      → ((g : BankGroup) → found ≡ some g → g.id ≡ id)
      → IsGrouped c
      → Sees c (add_found found id []) (see_found rules id found c)
  unfolding see_found
  see_found-Sees rules id none c k v = record { grouped = v; grows = Grows-refl _; uses = tt }
  see_found-Sees rules id (some g) c k v = see_group-Sees rules id g c (k g refl) v

  add_found-AreListed :
      (seen : List String) (found : Option BankGroup) (id : String) (ids : List String)
      → AreListed seen (add_found found id [])
      → AreListed seen ids
      → AreListed seen (add_found found id ids)
  add_found-AreListed seen none id ids p q = q
  add_found-AreListed seen (some g) id ids p q = (p.0, q)

  pub groups-Sees :
      (bank : Bank) (rules : Rules) (ids : List String) (c : Compiler)
      → AreKeyed bank.groups
      → IsGrouped c
      → Sees c (groups bank rules ids c).0 (groups bank rules ids c).1
  unfolding groups
  groups-Sees bank rules [] c k v = record { grouped = v; grows = Grows-refl _; uses = tt }
  groups-Sees bank rules (id ∷ ids) c k v =
      let found = lookup id bank.groups in
      let s = see_found-Sees rules id found c (λ g e. lookup-AreKeyed id bank.groups g k e) v in
      let r = groups-Sees bank rules ids (see_found rules id found c) k s.grouped in
      record {
        grouped = r.grouped;
        grows = Grows-trans _ _ _ s.grows r.grows;
        uses =
            add_found-AreListed _ found id _ (r.grows.keeps (add_found found id []) s.uses) r.uses;
      }

  pub put-IsGrouped :
      (key name : String) (at : ℤ) (bi : BuildItem) (c : Compiler)
      → IsGood c.group_seen bi
      → IsGrouped c
      → IsGrouped (put key name at bi c)
  unfolding put
  put-IsGrouped key name at bi c p v = record {
    listed = v.listed;
    once = v.once;
    good = put_item-AllItems (IsGood c.group_seen) key name at bi c.cats p v.good;
  }

  put_found-IsGrouped :
      (b : Option BankCat) (name : String) (at : ℤ) (bi : BuildItem) (c : Compiler)
      → IsGood c.group_seen bi
      → IsGrouped c
      → IsGrouped (put_found b name at bi c)
  put_found-IsGrouped (some b) name at bi c p v = put-IsGrouped b.key b.name b.pos bi c p v
  put_found-IsGrouped none name at bi c p v = put-IsGrouped ("c:" <> name) name at bi c p v

  pub put_named-IsGrouped :
      (tables : CaseTables) (name : String) (at : ℤ) (bi : BuildItem) (c : Compiler)
      → IsGood c.group_seen bi
      → IsGrouped c
      → IsGrouped (put_named tables name at bi c)
  unfolding put_named
  put_named-IsGrouped tables name at bi c p v =
      put_found-IsGrouped (lookup (to_lower tables (trim_space name)) c.bank_cats) (trim_space name)
        at bi c p v

  pub if-IsGrouped :
      (b : Bool) (c d : Compiler) → IsGrouped c → IsGrouped d → IsGrouped (if b then c else d)
  if-IsGrouped true c d p q = p
  if-IsGrouped false c d p q = q

  opened-IsGrouped :
      (cat : BankCategory) (at : ℤ) (c : Compiler) → IsGrouped c → IsGrouped (opened cat at c)
  opened-IsGrouped cat at c v = record {
    listed = v.listed;
    once = v.once;
    good = open_category-AllItems (IsGood c.group_seen) cat.id cat.name at c.cats v.good;
  }

  pub put_shown-IsGrouped :
      (tables : CaseTables) (cat : BankCategory) (at : ℤ) (e : Option Entry) (bi : BuildItem)
      (c : Compiler)
      → IsGood c.group_seen bi
      → IsGrouped c
      → IsGrouped (put_shown tables cat at e bi c)
  unfolding put_shown
  put_shown-IsGrouped tables cat at none bi c p v = put-IsGrouped cat.id cat.name at bi c p v
  put_shown-IsGrouped tables cat at (some e) bi c p v =
      if-IsGrouped (is_set e.category) _ _
        (put_named-IsGrouped tables e.category at bi _ p (opened-IsGrouped cat at c v))
        (put-IsGrouped cat.id cat.name at bi c p v)

  pub attention-IsGrouped :
      (n : NeedsAttention) (c : Compiler) → IsGrouped c → IsGrouped (attention n c)
  attention-IsGrouped n c v = record { listed = v.listed; once = v.once; good = v.good }
