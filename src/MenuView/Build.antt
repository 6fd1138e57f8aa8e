-- ===== src/MenuView/Build.antt =====
-- backend/internal/domain/menuview/compile.go, `Compile` and `compileVendor`: the build of a view.
use posserver.Prelude.{
  ℕ, String, Bool, true, false, ◌&&◌, ◌||◌, Option, List, [], ◌∷◌, ◌++◌, ltb, ◌==◌, if◌then◌else◌,
  str_eq, ◌<>◌,
}
use posserver.Prelude.Int.{ℤ, pos, ltb_ℤ}
use posserver.Prelude.Sort.{sort_stable}
use posserver.Prelude.Strings.{trim_space, to_lower, CaseTables, codes, is_space}
use posserver.MenuView.Types.{BuildItem, BuildCategory, BuildGroup}
use posserver.MenuView.Bank.{Bank, Size}
use posserver.MenuView.Bank
use posserver.MenuView.View.{Rules, View, Kind, vendor, Entry, EntryKind, entry_map}
use posserver.MenuView.Compiler.{Compiler, NeedsAttention}
use posserver.MenuView.Compile.{not_indexed, index_entries, mark_menus, show_menus, is_none}
use posserver.MenuView.Entries.{add_entries}

-- `BuildMap`.
pub record BuildMap : Type 0 where
  pub entry_id : String
  pub vendor_name : String
  pub vendor_size : String
  pub item_id : String
  pub size_id : Option String

-- `UnmatchedName`.
pub record UnmatchedName : Type 0 where
  pub name : String
  pub orders : ℤ

-- `BuildView`.
pub record BuildView : Type 0 where
  pub id : String
  pub kind : Kind
  pub name : String

pub record Build : Type 0 where
  pub format : ℕ
  pub view : BuildView
  pub version : ℤ
  pub currency : String
  pub sizes : List Size
  pub categories : List BuildCategory
  pub modifier_groups : List BuildGroup
  pub maps : List BuildMap
  pub needs_attention : List NeedsAttention

unfoldable pub sorted_items : BuildCategory → BuildCategory
unfolding sort_stable
sorted_items cat = record cat {
  items = sort_stable (λ (a b : BuildItem). ltb_ℤ a.position b.position) cat.items;
}

abbrev pub no_items : List BuildItem → Bool
no_items [] = true
no_items (i ∷ is) = false

-- The categories that have items, each in the order of its positions.
unfoldable pub filled : List BuildCategory → List BuildCategory
unfolding sorted_items
filled [] = []
filled (cat ∷ cats) =
    let rest = filled cats in if no_items cat.items then rest else sorted_items cat ∷ rest

unfoldable pub sorted_categories : List BuildCategory → List BuildCategory
unfolding sort_stable
sorted_categories = sort_stable λ (a b : BuildCategory). ltb_ℤ a.position b.position

-- `compiler.run`.
unfoldable pub run : CaseTables → Bank → Rules → List Entry → Compiler
unfolding index_entries mark_menus show_menus add_entries
run tables bank rules entries =
    let x = index_entries bank entries not_indexed in
    let c1 = mark_menus tables rules x.by_item bank.menus 0 x.compiler in
    let c2 = show_menus tables bank rules x bank.menus 0 c1 in
    add_entries tables bank rules entries c2

-- `strings.FieldsFunc(s, unicode.IsSpace)`, `word` being the field that is read, backwards.
unfoldable pub fields_from : List ℕ → List ℕ → List (List ℕ)
unfolding is_space
fields_from word [] = elim word [ [] ↦ [] | c ∷ cs ↦ (c ∷ cs) ∷ [] ]
fields_from word (c ∷ cs) = elim (is_space c) [
  | true ↦ elim word [ [] ↦ fields_from [] cs | d ∷ ds ↦ (d ∷ ds) ∷ fields_from [] cs ]
  | false ↦ fields_from (word ++ c ∷ []) cs
]

-- `strings.Join(words, " ")`.
unfoldable pub join_words : List (List ℕ) → List ℕ
join_words [] = []
join_words (w ∷ []) = w
join_words (w ∷ v ∷ ws) = w ++ 32 ∷ join_words (v ∷ ws)

-- `NormName`, as its code points.
unfoldable pub norm_name : CaseTables → String → List ℕ
unfolding fields_from join_words
norm_name tables s = join_words (fields_from [] (codes (to_lower tables s)))

-- Go's order of texts; the bytes of UTF-8 are in the order of the code points.
unfoldable pub codes_before : List ℕ → List ℕ → Bool
codes_before [] [] = false
codes_before [] (d ∷ ds) = true
codes_before (c ∷ cs) [] = false
codes_before (c ∷ cs) (d ∷ ds) = if c == d then codes_before cs ds else ltb c d

unfoldable pub codes_eq : List ℕ → List ℕ → Bool
codes_eq [] [] = true
codes_eq [] (d ∷ ds) = false
codes_eq (c ∷ cs) [] = false
codes_eq (c ∷ cs) (d ∷ ds) = c == d && codes_eq cs ds

unfoldable pub has_name : List (List ℕ) → List ℕ → Bool
unfolding codes_eq
has_name [] n = false
has_name (m ∷ ms) n = codes_eq m n || has_name ms n

-- The variables of the loop of `compileVendor`.
pub record Mapping : Type 0 where
  pub maps : List BuildMap
  pub mapped : List (List ℕ)
  pub needs_attention : List NeedsAttention

abbrev flag : NeedsAttention → Mapping → Mapping
flag n m = record m { needs_attention = m.needs_attention ++ n ∷ [] }

abbrev bad_map : Entry → NeedsAttention
bad_map e = record {
  code = "bad_map";
  entry_id = e.id;
  item_id = "";
  name = "";
  orders = pos 0;
  message = "a mapping needs the vendor's item name and one bank item";
}

unfoldable pub map_anchor : CaseTables → Bank → Entry → List String → Mapping → Mapping
unfolding norm_name
map_anchor tables bank e (id ∷ []) m =
    let name = trim_space e.extra.vendor_name in
    if str_eq name ""
    then flag (bad_map e) m
    else if is_none (Bank.item bank id)
    then flag
        (record {
          code = "anchor_gone";
          entry_id = e.id;
          item_id = id;
          name = name;
          orders = pos 0;
          message = "“" <> name <> "” maps to a bank item that is gone";
        })
        m
    else record m {
      maps =
          m.maps
          ++ record {
            entry_id = e.id;
            vendor_name = name;
            vendor_size = trim_space e.extra.vendor_size;
            item_id = id;
            size_id = e.anchor.size_id;
          }
            ∷ [];
      mapped = m.mapped ++ norm_name tables name ∷ [];
    }
map_anchor tables bank e ids m = flag (bad_map e) m

unfoldable pub map_entry : CaseTables → Bank → EntryKind → Entry → Mapping → Mapping
unfolding map_anchor
map_entry tables bank entry_map e m = map_anchor tables bank e e.anchor.item_ids m
map_entry tables bank _ e m = m

unfoldable pub map_entries : CaseTables → Bank → List Entry → Mapping → Mapping
unfolding map_entry
map_entries tables bank [] m = m
map_entries tables bank (e ∷ es) m = map_entries tables bank es (map_entry tables bank e.kind e m)

unfoldable pub unmatched_names :
    CaseTables → List (List ℕ) → List UnmatchedName → List NeedsAttention
unfolding has_name norm_name
unmatched_names tables mapped [] = []
unmatched_names tables mapped (u ∷ us) =
    let rest = unmatched_names tables mapped us in
    if has_name mapped (norm_name tables u.name)
    then rest
    else record {
      code = "unmatched";
      entry_id = "";
      item_id = "";
      name = u.name;
      orders = u.orders;
      message = "“" <> u.name <> "” matches no menu item: it prints on every station";
    }
      ∷ rest

-- `compileVendor`.
unfoldable pub compile_vendor : CaseTables → Bank → List Entry → List UnmatchedName → Build → Build
unfolding map_entries unmatched_names codes_before norm_name
compile_vendor tables bank entries unmatched b =
    let m =
      map_entries tables bank entries
        (record { maps = []; mapped = []; needs_attention = b.needs_attention }) in
    record b {
      maps =
          sort_stable
            (λ (x y : BuildMap).
              codes_before (norm_name tables x.vendor_name) (norm_name tables y.vendor_name))
            m.maps;
      needs_attention = m.needs_attention ++ unmatched_names tables m.mapped unmatched;
    }

abbrev pub empty_build : Bank → View → Build
empty_build bank v = record {
  format = 2;
  view = record { id = v.id; kind = v.kind; name = v.name };
  version = bank.version;
  currency = "USD";
  sizes = bank.sizes;
  categories = [];
  modifier_groups = [];
  maps = [];
  needs_attention = [];
}

-- The end of `run`: the categories of the build.
abbrev pub compiled : Compiler → Build → Build
compiled c b = record b {
  categories = sorted_categories (filled c.cats);
  modifier_groups = c.modifier_groups;
  needs_attention = c.needs_attention;
}

unfoldable pub compile_kind :
    CaseTables → Bank → View → Kind → List Entry → List UnmatchedName → Build
unfolding compile_vendor run filled sorted_categories
compile_kind tables bank v vendor entries unmatched =
    compile_vendor tables bank entries unmatched (empty_build bank v)
compile_kind tables bank v _ entries unmatched =
    compiled (run tables bank v.rules entries) (empty_build bank v)

-- `Compile`.
unfoldable pub compile : CaseTables → Bank → View → List Entry → List UnmatchedName → Build
unfolding compile_kind
compile tables bank v entries unmatched = compile_kind tables bank v v.kind entries unmatched
