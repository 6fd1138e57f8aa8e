-- ===== src/Pricing/Item/Options.antt =====
-- backend/internal/domain/pricing/engine.go, `price`: the options, group by group.
use posserver.Prelude.{
  ℕ, suc, String, true, false, not, ◌&&◌, ◌||◌, Option, none, some, List, [], ◌∷◌, ◌++◌,
  if◌then◌else◌, length, str_eq, ◌<>◌, contains, lookup,
}
use posserver.Prelude.Int.{ℤ, pos, negsuc, ltb_ℤ, eq_ℤ}
use posserver.Prelude.Strings.{to_lower, itoa}
use posserver.MenuView.Types.{BuildItem, BuildGroup, BuildOption, OptionPrice}
use posserver.Pricing.Types.{unknown_option, option_rules, sold_out, Pick, Selection, World}
use posserver.Pricing.Item.Configured.{find_option, Priced, Engine, issue, add_issue}

-- The state of the loop over a group's picks.
pub record Picking : Type 0 where
  pub priced : Priced
  pub extras : List ℤ
  pub seen : List String

-- The option's price for the item's size: the last that fits.
unfoldable pub option_price : String → ℤ → List OptionPrice → ℤ
option_price size price [] = price
option_price size price (op ∷ ops) =
    option_price size
      (if not (str_eq size "") && str_eq op.size_id size then op.price_cents else price) ops

unfoldable pub half_text : BuildGroup → Pick → String
half_text g pk =
    if g.portions && (str_eq pk.portion "left" || str_eq pk.portion "right")
    then " (" <> pk.portion <> " half)"
    else ""

-- A pick of an option that the group has.
unfoldable pub pick_option : BuildItem → BuildGroup → Picking → Pick → BuildOption → Picking
unfolding option_price half_text
pick_option it g st pk o =
    let p = st.priced in
    let half = half_text g pk in
    let price = option_price p.size o.price_cents o.prices in
    let once =
      if contains st.seen pk.option_id && not g.allow_multiple
      then p.issues ++ issue option_rules (it.name <> ": " <> o.name <> " only once.") ∷ []
      else p.issues in
    record {
      priced = record p {
        issues =
            if o.sold_out
            then once ++ issue sold_out (o.name <> " is sold out right now.") ∷ []
            else once;
        mods =
            if not o.is_default || not (str_eq half "")
            then p.mods ++ (o.name <> half) ∷ []
            else p.mods;
        opts =
            p.opts
            ++ record {
              name = o.name;
              portion = if not (str_eq half "") then pk.portion else "";
              price_cents = price;
              removed_default = false;
              included = false;
            }
              ∷ [];
      };
      extras = if ltb_ℤ (pos 0) price then st.extras ++ price ∷ [] else st.extras;
      seen = pk.option_id ∷ st.seen;
    }

unfoldable pub pick_found : BuildItem → BuildGroup → Picking → Pick → Option BuildOption → Picking
unfolding pick_option
pick_found it g st pk none = record st {
  priced = add_issue st.priced unknown_option (it.name <> ": an option is no longer available.");
}
pick_found it g st pk (some o) = pick_option it g st pk o

unfoldable pub pick_all : BuildItem → BuildGroup → Picking → List Pick → Picking
unfolding pick_found find_option
pick_all it g st [] = st
pick_all it g st (pk ∷ pks) =
    pick_all it g (pick_found it g st pk (find_option pk.option_id none g.options)) pks

-- The selection's picks in a group.
unfoldable pub picks_of : String → List Pick → List Pick
picks_of id [] = []
picks_of id (pk ∷ pks) =
    let rest = picks_of id pks in if str_eq pk.group_id id then pk ∷ rest else rest

-- "NO onions": the defaults that were not picked.
unfoldable pub left_off : List String → Priced → List BuildOption → Priced
left_off seen p [] = p
left_off seen p (o ∷ os) =
    left_off seen
      (if o.is_default && not (contains seen o.id)
        then record p {
          mods = p.mods ++ ("NO " <> o.name) ∷ [];
          opts =
              p.opts
              ++ record {
                name = o.name;
                portion = "";
                price_cents = pos 0;
                removed_default = true;
                included = false;
              }
                ∷ [];
        }
        else p)
      os

unfoldable pub int_text : ℤ → String
int_text (pos n) = itoa n
int_text (negsuc n) = "-" <> itoa (suc n)

-- The group's rules on how many.
unfoldable pub count_rules : World → BuildItem → BuildGroup → ℕ → Priced → Priced
unfolding int_text
count_rules w it g picked p =
    let least = if g.required && ltb_ℤ g.min_select (pos 1) then pos 1 else g.min_select in
    let what = if eq_ℤ least (pos 1) then "a" else int_text least in
    let few =
      if ltb_ℤ (pos picked) least
      then add_issue p option_rules
          (it.name <> ": choose " <> what <> " " <> to_lower w.tables g.name <> ".")
      else p in
    if ltb_ℤ (pos 0) g.max_select && ltb_ℤ g.max_select (pos picked)
    then add_issue few option_rules
        (it.name <> ": up to " <> int_text g.max_select <> " " <> to_lower w.tables g.name <> ".")
    else few

-- One group that the menu has.
unfoldable pub price_group :
    World → BuildItem → Selection → Priced × List ℤ → BuildGroup → Priced × List ℤ
unfolding pick_all picks_of left_off count_rules
price_group w it sel (p, extras) g =
    let picks = picks_of g.id sel.options in
    let st = pick_all it g (record { priced = p; extras = extras; seen = [] }) picks in
    let off =
      if not (eq_ℤ g.max_select (pos 1)) then left_off st.seen st.priced g.options else st.priced in
    (count_rules w it g (length picks) off, st.extras)

unfoldable pub price_found :
    World → BuildItem → Selection → Priced × List ℤ → Option BuildGroup → Priced × List ℤ
unfolding price_group
price_found w it sel st none = st
price_found w it sel st (some g) = price_group w it sel st g

unfoldable pub price_groups :
    World → Engine → BuildItem → Selection → Priced × List ℤ → List String → Priced × List ℤ
unfolding price_found
price_groups w e it sel st [] = st
price_groups w e it sel st (gid ∷ gids) =
    price_groups w e it sel (price_found w it sel st (lookup gid e.groups)) gids

-- One issue for the first option of a group that is not the item's.
unfoldable pub foreign_options : BuildItem → List Pick → Priced → Priced
foreign_options it [] p = p
foreign_options it (pk ∷ pks) p =
    let rest = foreign_options it pks p in
    if not (contains it.modifier_group_ids pk.group_id)
    then add_issue p unknown_option (it.name <> ": an option doesn't belong to this item.")
    else rest
