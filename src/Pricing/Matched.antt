-- ===== src/Pricing/Matched.antt =====
-- backend/internal/domain/pricing/engine.go, `Price`: what the lines add up to is what is taxed.
use posserver.Prelude.{
  ℕ, suc, ◌≡◌, refl, ap, ◌∙◌, Bool, true, false, not, Option, none, some, List, [], ◌∷◌, ◌++◌,
  arith, if◌then◌else◌, ◌<>◌,
}
use posserver.Prelude.Int.{ℤ, pos, ◌+ℤ◌, ◌-ℤ◌, ◌*ℤ◌, ◌<ℤ◌, int_laws, parts_of_eq}
use posserver.Order.Types.{Time}
use posserver.Pricing.Types.{deal_unavailable, Quote, QuoteLine, Context, Cart, World, Line, Deal}
use posserver.Pricing.Item.{rate, Engine, new_engine}
use posserver.Pricing.Lines.{
  add_error, Taxed, Drafted, Bundling, fill_slots, item_line, ended_line, bundle_line, deal_line,
  draft_line, draft_lines, add_line,
}
use posserver.Pricing.Quote.{sum_lines, draft}
use posserver.Pricing.Live.{live, UnitPrice}
use posserver.Pricing.Lines.{add_error}
use posserver.Pricing.Charges.{shares, sorted_rates}
use posserver.Pricing.Spread.{sorted_rates-sum, shared_out, taxed_food, sum_totals}
use posserver.Pricing.SameLines.{
  SameLines, line_rules, none_added, if-SameLines, error_after, saved_after, fill_slots-SameLines,
}

sum_lines-snoc :
    (ls : List QuoteLine) (l : QuoteLine) → sum_lines (ls ++ l ∷ []) ≡ sum_lines ls +ℤ l.total_cents
unfolding sum_lines
sum_lines-snoc [] l = omega int_laws
sum_lines-snoc (k ∷ ls) l = omega (int_laws, parts_of_eq _ _ (sum_lines-snoc ls l))

sum_totals-snoc :
    (ts : List Taxed) (t : Taxed) → sum_totals (ts ++ t ∷ []) ≡ sum_totals ts +ℤ t.total
unfolding sum_totals
sum_totals-snoc [] t = omega int_laws
sum_totals-snoc (u ∷ ts) t = omega (int_laws, parts_of_eq _ _ (sum_totals-snoc ts t))

-- What the lines add up to is what is taxed.
record IsMatched (d : Drafted) : Type 0 where
  sum : sum_totals d.line_tax ≡ sum_lines d.quote.lines

if-IsMatched :
    (b : Bool) (x y : Drafted) → IsMatched x → IsMatched y → IsMatched (if b then x else y)
if-IsMatched true x y p p' = p
if-IsMatched false x y p p' = p'

match_line :
    (d : Drafted) (t : Taxed) (l : QuoteLine) (q : Quote) (units : List UnitPrice)
    (has_bundle : Bool)
    → IsMatched d
    → SameLines d.quote q
    → t.total ≡ l.total_cents
    → IsMatched (record {
      quote = add_line l q;
      units = units;
      line_tax = d.line_tax ++ t ∷ [];
      has_bundle = has_bundle;
    })
match_line d t l q units has_bundle h k e = record {
  sum = omega (
    int_laws,
    parts_of_eq _ _ h.sum,
    parts_of_eq _ _ (ap sum_lines k.lines),
    parts_of_eq _ _ e,
    parts_of_eq _ _ (sum_lines-snoc q.lines l),
    parts_of_eq _ _ (sum_totals-snoc d.line_tax t),
  );
}

match_free :
    (d : Drafted) (l : QuoteLine) (q : Quote) (units : List UnitPrice) (has_bundle : Bool)
    → IsMatched d
    → SameLines d.quote q
    → l.total_cents ≡ pos 0
    → IsMatched (record {
      quote = add_line l q;
      units = units;
      line_tax = d.line_tax;
      has_bundle = has_bundle;
    })
match_free d l q units has_bundle h k e = record {
  sum = omega (
    int_laws,
    parts_of_eq _ _ h.sum,
    parts_of_eq _ _ (ap sum_lines k.lines),
    parts_of_eq _ _ e,
    parts_of_eq _ _ (sum_lines-snoc q.lines l),
  );
}

item_line-IsMatched :
    (w : World) (e : Engine) (index qty : ℕ) (line : Line) (d : Drafted)
    → IsMatched d
    → IsMatched (item_line w e index qty line d)
unfolding item_line
item_line-IsMatched w e index qty line d h = search (match_line, line_rules)

ended_line-IsMatched :
    (index qty : ℕ) (line : Line) (d : Drafted)
    → IsMatched d
    → IsMatched (ended_line index qty line d)
unfolding ended_line
ended_line-IsMatched index qty line d h = search (match_free, line_rules)

bundle_line-IsMatched :
    (w : World) (e : Engine) (cart : Cart) (at : Time) (index qty : ℕ) (line : Line) (deal : Deal)
    (d : Drafted)
    → IsMatched d
    → IsMatched (bundle_line w e cart at index qty line deal d)
unfolding bundle_line
bundle_line-IsMatched w e cart at index qty line deal d h =
    let q =
      if not (live w deal e.ctx.timezone at cart.type)
      then add_error deal_unavailable (deal.name <> " isn't available right now.") (some index)
          d.quote
      else d.quote in
    let start : Bundling = record {
      quote = q;
      extras = pos 0;
      regular = pos 0;
      mods = [];
      rate_item = "";
    } in
    let b = fill_slots w e index deal deal.slots line.picks start in
    let opened =
      if-SameLines d.quote _ _ _ (error_after d.quote d.quote _ _ _ (none_added d.quote))
        (none_added d.quote) in
    let filled = fill_slots-SameLines w e index deal deal.slots line.picks start d.quote opened in
    match_line d
      (record { total = (deal.price_cents +ℤ b.extras) *ℤ pos qty; rate = rate e b.rate_item }) _ _
      _ _ h (saved_after d.quote b.quote _ filled) refl

deal_line-IsMatched :
    (w : World) (e : Engine) (cart : Cart) (at : Time) (index qty : ℕ) (line : Line)
    (deal : Option Deal) (d : Drafted)
    → IsMatched d
    → IsMatched (deal_line w e cart at index qty line deal d)
unfolding deal_line
deal_line-IsMatched w e cart at index qty line none d h = ended_line-IsMatched index qty line d h
deal_line-IsMatched w e cart at index qty line (some deal) d h =
    if-IsMatched _ _ _ (ended_line-IsMatched index qty line d h)
      (bundle_line-IsMatched w e cart at index qty line deal d h)

draft_line-IsMatched :
    (w : World) (e : Engine) (cart : Cart) (at : Time) (index : ℕ) (line : Line) (d : Drafted)
    → IsMatched d
    → IsMatched (draft_line w e cart at index line d)
unfolding draft_line
draft_line-IsMatched w e cart at index line d h =
    if-IsMatched _ _ _ (item_line-IsMatched w e index _ line d h)
      (deal_line-IsMatched w e cart at index _ line _ d h)

draft_lines-IsMatched :
    (w : World) (e : Engine) (cart : Cart) (at : Time) (index : ℕ) (ls : List Line) (d : Drafted)
    → IsMatched d
    → IsMatched (draft_lines w e cart at index ls d)
unfolding draft_lines
draft_lines-IsMatched w e cart at index [] d h = h
draft_lines-IsMatched w e cart at index (l ∷ ls) d h =
    draft_lines-IsMatched w e cart at (suc index) ls (draft_line w e cart at index l d)
      (draft_line-IsMatched w e cart at index l d h)

draft-IsMatched :
    (w : World) (ctx : Context) (cart : Cart) (at : Time) → IsMatched (draft w ctx cart at)
unfolding draft sum_totals sum_lines
draft-IsMatched w ctx cart at =
    draft_lines-IsMatched w (new_engine ctx) cart at 0 cart.lines _ (record { sum = refl })

shared_all :
    (ts : List Taxed) (sub after : ℤ)
    → sum_totals ts ≡ sub
    → pos 0 <ℤ sub
    → taxed_food ts (shares sub (sub -ℤ after) (pos 0) ts) ≡ after
unfolding sum_totals
shared_all [] sub after e h = absurd (ground (arith, parts_of_eq _ _ e))
shared_all (t ∷ ts) sub after e h =
    omega
      (int_laws, parts_of_eq _ _ e, parts_of_eq _ _ (shared_out sub (sub -ℤ after) (pos 0) t ts h))

-- Of a cart whose lines add up to more than nothing, the food that the rates are taxed on adds up to
-- exactly what is left after discounts, whatever was taken off.
pub draft-shared_all :
    (w : World) (ctx : Context) (cart : Cart) (at : Time) (after : ℤ)
    → let d = draft w ctx cart at in
      let sub = sum_lines d.quote.lines in
      let rates = sorted_rates d.line_tax in
      pos 0 <ℤ sub → taxed_food rates (shares sub (sub -ℤ after) (pos 0) rates) ≡ after
draft-shared_all w ctx cart at after h =
    let d = draft w ctx cart at in
    shared_all (sorted_rates d.line_tax) _ after
      (sorted_rates-sum d.line_tax ∙ (draft-IsMatched w ctx cart at).sum) h
