-- ===== src/Pricing/Lines.antt =====
-- backend/internal/domain/pricing/engine.go, `Price`: the loop over the cart's lines.
use posserver.Prelude.{
  ℕ, suc, String, Bool, true, false, not, ◌&&◌, ◌||◌, Option, none, some, List, [], ◌∷◌, ◌++◌,
  if◌then◌else◌, replicate, str_eq, ◌<>◌, contains,
}
use posserver.Prelude.Int.{ℤ, pos, pos_part, ◌+ℤ◌, ◌-ℤ◌, ◌*ℤ◌, ltb_ℤ}
use posserver.Prelude.Strings.{trim_space}
use posserver.Order.Types.{Time}
use posserver.Pricing.Types.{
  Cart, Line, Deal, DealKind, bundle, Slot, Selection, QuoteLine, Quote, Issue, IssueCode, empty,
  unknown_item, unknown_size, unknown_option, option_rules, sold_out, deal_ended, deal_unavailable,
  deal_slot, code_invalid, code_minimum, code_first_order, code_not_combinable, type_off, bad_type,
  delivery_minimum, World,
}
use posserver.Pricing.Live.{live, matches, UnitPrice}
use posserver.Pricing.Item.{Engine, Priced, price, category, rate}

unfoldable pub code_text : IssueCode → String
code_text empty = "empty"
code_text unknown_item = "unknown_item"
code_text unknown_size = "unknown_size"
code_text unknown_option = "unknown_option"
code_text option_rules = "option_rules"
code_text sold_out = "sold_out"
code_text deal_ended = "deal_ended"
code_text deal_unavailable = "deal_unavailable"
code_text deal_slot = "deal_slot"
code_text code_invalid = "code_invalid"
code_text code_minimum = "code_minimum"
code_text code_first_order = "code_first_order"
code_text code_not_combinable = "code_not_combinable"
code_text type_off = "type_off"
code_text bad_type = "bad_type"
code_text delivery_minimum = "delivery_minimum"

unfoldable pub has_issue : IssueCode → String → List Issue → Bool
unfolding code_text
has_issue code message [] = false
has_issue code message (x ∷ xs) =
    str_eq (code_text x.code) (code_text code) && str_eq x.message message
    || has_issue code message xs

-- The closure `issue`: each code and message once.
unfoldable pub add_error : IssueCode → String → Option ℕ → Quote → Quote
add_error code message line q = if has_issue code message q.errors then q else record q {
  errors = q.errors ++ record { code = code; message = message; line = line } ∷ [];
}

-- The closure `nudge`: each message once.
unfoldable pub add_nudge : String → Quote → Quote
add_nudge message q =
    if contains q.nudges message then q else record q { nudges = q.nudges ++ message ∷ [] }

unfoldable pub add_errors : ℕ → List Issue → Quote → Quote
add_errors index [] q = q
add_errors index (i ∷ is) q = add_errors index is (add_error i.code i.message (some index) q)

pub record Taxed : Type 0 where
  pub total : ℤ
  pub rate : ℤ

-- The variables of the loop over the lines.
pub record Drafted : Type 0 where
  pub quote : Quote
  pub units : List UnitPrice
  pub line_tax : List Taxed
  pub has_bundle : Bool

-- The quantity, kept within 1 and 50.
unfoldable pub clamp_qty : ℤ → ℕ
clamp_qty n =
    let qty = if ltb_ℤ n (pos 1) then pos 1 else n in
    pos_part (if ltb_ℤ (pos 50) qty then pos 50 else qty)

abbrev pub add_line : QuoteLine → Quote → Quote
add_line l q = record q { lines = q.lines ++ l ∷ [] }

abbrev no_issues : Priced → Bool
no_issues p = elim p.issues [ [] ↦ true | i ∷ is ↦ false ]

-- A line that is an item.
unfoldable pub item_line : World → Engine → ℕ → ℕ → Line → Drafted → Drafted
unfolding add_errors
item_line w e index qty line d =
    let p = price w e line.selection (pos 0) in
    let note = trim_space line.note in
    let total = p.unit *ℤ pos qty in
    record d {
      quote =
          add_line
            (record {
              index = index;
              name = p.name;
              mods = if not (str_eq note "") then p.mods ++ ("“" <> note <> "”") ∷ [] else p.mods;
              qty = qty;
              unit_cents = p.unit;
              total_cents = total;
              regular_cents = none;
              deal_id = "";
            })
            (add_errors index p.issues d.quote);
      line_tax = d.line_tax ++ record { total = total; rate = rate e p.rate_item } ∷ [];
      units =
          if not (str_eq p.bank_item "") && no_issues p
          then d.units
            ++ replicate qty (record {
              price = p.unit;
              item = p.bank_item;
              category = category e p.bank_item;
              size = p.size;
            })
          else d.units;
    }

abbrev is_bundle : DealKind → Bool
is_bundle bundle = true
is_bundle _ = false

-- The last bundle of the id.
unfoldable pub find_bundle : String → Option Deal → List Deal → Option Deal
find_bundle id found [] = found
find_bundle id found (d ∷ ds) =
    find_bundle id (if str_eq d.id id && is_bundle d.kind then some d else found) ds

-- The variables of the loop over a bundle's steps.
pub record Bundling : Type 0 where
  pub quote : Quote
  pub extras : ℤ
  pub regular : ℤ
  pub mods : List String
  pub rate_item : String

-- `strings.Join(xs, " · ")`.
unfoldable pub join_dots : String → List String → String
join_dots first [] = first
join_dots first (x ∷ xs) = first <> " · " <> join_dots x xs

-- A step with its pick.
unfoldable pub fill_slot : World → Engine → ℕ → Deal → Slot → Selection → Bundling → Bundling
unfolding join_dots
fill_slot w e index d slot pick b =
    let p = price w e pick slot.included_options in
    let q = add_errors index p.issues b.quote in
    let unit : UnitPrice = record {
      price = pos 0;
      item = p.bank_item;
      category = category e p.bank_item;
      size = p.size;
    } in
    record {
      quote =
          if no_issues p && not (matches slot.eligible unit)
          then add_error deal_slot
              (d.name <> ": " <> p.name <> " doesn't fit “" <> slot.label <> "”.") (some index) q
          else q;
      rate_item = if str_eq b.rate_item "" then p.rate_item else b.rate_item;
      extras = b.extras +ℤ p.extras;
      regular = b.regular +ℤ (price w e pick (pos 0)).unit;
      mods = b.mods ++ join_dots p.name p.mods ∷ [];
    }

-- The steps, against the picks from the same place on.
unfoldable pub fill_slots :
    World → Engine → ℕ → Deal → List Slot → List Selection → Bundling → Bundling
unfolding fill_slot
fill_slots w e index d [] picks b = b
fill_slots w e index d (slot ∷ slots) [] b = fill_slots w e index d slots [] (record b {
  quote = add_error deal_slot (d.name <> ": finish every step.") (some index) b.quote;
})
fill_slots w e index d (slot ∷ slots) (pick ∷ picks) b =
    fill_slots w e index d slots picks (fill_slot w e index d slot pick b)

unfoldable pub ended_line : ℕ → ℕ → Line → Drafted → Drafted
ended_line index qty line d = record d {
  has_bundle = true;
  quote =
      add_line
        (record {
          index = index;
          name = "Ended deal";
          mods = [];
          qty = qty;
          unit_cents = pos 0;
          total_cents = pos 0;
          regular_cents = none;
          deal_id = line.deal_id;
        })
        (add_error deal_ended "A deal in your order has ended." (some index) d.quote);
}

-- A bundle that is active.
unfoldable pub bundle_line : World → Engine → Cart → Time → ℕ → ℕ → Line → Deal → Drafted → Drafted
unfolding fill_slots
bundle_line w e cart at index qty line deal d =
    let q =
      if not (live w deal e.ctx.timezone at cart.type)
      then add_error deal_unavailable (deal.name <> " isn't available right now.") (some index)
          d.quote
      else d.quote in
    let b =
      fill_slots w e index deal deal.slots line.picks
        (record { quote = q; extras = pos 0; regular = pos 0; mods = []; rate_item = "" }) in
    let u = deal.price_cents +ℤ b.extras in
    let saved =
      if ltb_ℤ u b.regular
      then b.quote.saved_cents +ℤ (b.regular -ℤ u) *ℤ pos qty
      else b.quote.saved_cents in
    let total = u *ℤ pos qty in
    record d {
      has_bundle = true;
      quote =
          add_line
            (record {
              index = index;
              name = deal.name;
              mods = b.mods;
              qty = qty;
              unit_cents = u;
              total_cents = total;
              regular_cents = some b.regular;
              deal_id = deal.id;
            })
            (record b.quote { saved_cents = saved });
      line_tax = d.line_tax ++ record { total = total; rate = rate e b.rate_item } ∷ [];
    }

unfoldable pub deal_line :
    World → Engine → Cart → Time → ℕ → ℕ → Line → Option Deal → Drafted → Drafted
unfolding ended_line bundle_line
deal_line w e cart at index qty line none d = ended_line index qty line d
deal_line w e cart at index qty line (some deal) d =
    if not deal.active
    then ended_line index qty line d
    else bundle_line w e cart at index qty line deal d

unfoldable pub draft_line : World → Engine → Cart → Time → ℕ → Line → Drafted → Drafted
unfolding item_line deal_line
draft_line w e cart at index line d =
    let qty = clamp_qty line.qty in
    if str_eq line.deal_id ""
    then item_line w e index qty line d
    else deal_line w e cart at index qty line (find_bundle line.deal_id none e.ctx.deals) d

unfoldable pub draft_lines : World → Engine → Cart → Time → ℕ → List Line → Drafted → Drafted
unfolding draft_line
draft_lines w e cart at index [] d = d
draft_lines w e cart at index (l ∷ ls) d =
    draft_lines w e cart at (suc index) ls (draft_line w e cart at index l d)
