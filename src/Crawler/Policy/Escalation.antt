-- ===== src/Crawler/Policy/Escalation.antt =====
-- src/AgentCrawler/src/agent_crawler/policy/policy.py: where the plans of repeated failures lead.
use sth_boring.Base.{ℕ, zero, suc, ◌≢◌, Bool, true, false, ◌≡◌, refl, ap, sym, ◌∙◌}
use sth_boring.Crawler.Enums.{TransportKind, ExtractKind}
use sth_boring.Crawler.Models.{CrawlPlan, is_given}
use sth_boring.Crawler.Policy.{update_plan_on_failure}

-- How a plan fetches and extracts.
abbrev pub Ways : Type 0
Ways = TransportKind × ExtractKind

-- The ways after a failure, by whether the plan names an adapter.
abbrev pub escalate : Bool → Ways → Ways
escalate true (TransportKind.http, ExtractKind.universal) =
    (TransportKind.http, ExtractKind.adapter)
escalate true (TransportKind.http, _) = (TransportKind.browser, ExtractKind.universal)
escalate true (TransportKind.browser, ExtractKind.adapter) =
    (TransportKind.browser, ExtractKind.intelligent)
escalate true (TransportKind.browser, _) = (TransportKind.browser, ExtractKind.adapter)
escalate false (TransportKind.http, _) = (TransportKind.browser, ExtractKind.universal)
escalate false (TransportKind.browser, _) = (TransportKind.browser, ExtractKind.intelligent)

abbrev pub with_ways : Ways → CrawlPlan → CrawlPlan
with_ways w plan = record plan { transport = w.0; extract_kind = w.1 }

-- The plan after `n` failures.
unfoldable pub plan_after : ℕ → CrawlPlan → CrawlPlan
plan_after zero plan = plan
plan_after (suc n) plan = plan_after n (update_plan_on_failure plan)

-- The ways after `n` failures.
ways_after : Bool → ℕ → Ways → Ways
ways_after g zero w = w
ways_after g (suc n) w = ways_after g n (escalate g w)

update-escalate :
    (plan : CrawlPlan) (w : Ways) (g : Bool)
    → is_given plan.adapter_name ≡ g
    → update_plan_on_failure (with_ways w plan) ≡ with_ways (escalate g w) plan
unfolding update_plan_on_failure
update-escalate plan (TransportKind.http, ExtractKind.universal) true h = simp h
update-escalate plan (TransportKind.http, ExtractKind.universal) false h = simp h
update-escalate plan (TransportKind.http, ExtractKind.adapter) true h = refl
update-escalate plan (TransportKind.http, ExtractKind.adapter) false h = refl
update-escalate plan (TransportKind.http, ExtractKind.intelligent) true h = refl
update-escalate plan (TransportKind.http, ExtractKind.intelligent) false h = refl
update-escalate plan (TransportKind.browser, ExtractKind.universal) true h = simp h
update-escalate plan (TransportKind.browser, ExtractKind.universal) false h = simp h
update-escalate plan (TransportKind.browser, ExtractKind.adapter) true h = simp h
update-escalate plan (TransportKind.browser, ExtractKind.adapter) false h = simp h
update-escalate plan (TransportKind.browser, ExtractKind.intelligent) true h = simp h
update-escalate plan (TransportKind.browser, ExtractKind.intelligent) false h = simp h

plan_after-ways :
    (plan : CrawlPlan) (g : Bool)
    → is_given plan.adapter_name ≡ g
    → (n : ℕ) (w : Ways) → plan_after n (with_ways w plan) ≡ with_ways (ways_after g n w) plan
unfolding plan_after ways_after
plan_after-ways plan g h zero w = refl
plan_after-ways plan g h (suc n) w =
    ap (plan_after n) (update-escalate plan w g h) ∙ plan_after-ways plan g h n (escalate g w)

-- Two failures lead to the last resort, which a failure does not leave.
last : Ways
last = (TransportKind.browser, ExtractKind.intelligent)

ways_after-last : (n : ℕ) → ways_after false n last ≡ last
unfolding ways_after last
ways_after-last zero = refl
ways_after-last (suc n) = ways_after-last n

ways_after-settles : (n : ℕ) (w : Ways) → ways_after false (suc (suc n)) w ≡ last
unfolding ways_after last
ways_after-settles n (TransportKind.http, _) = ways_after-last n
ways_after-settles n (TransportKind.browser, _) = ways_after-last n

-- Without the name of an adapter, a plan after two or more failures uses the browser and the
-- intelligent extraction, and keeps the rest.
pub plan_after-settles :
    (plan : CrawlPlan) (n : ℕ)
    → is_given plan.adapter_name ≡ false
    → plan_after (suc (suc n)) plan
      ≡ record plan { transport = TransportKind.browser; extract_kind = ExtractKind.intelligent }
unfolding last
plan_after-settles plan n h =
    plan_after-ways plan false h (suc (suc n)) (plan.transport, plan.extract_kind)
    ∙ ap (λ w. with_ways w plan) (ways_after-settles n (plan.transport, plan.extract_kind))

ways_after-alternates :
    (n : ℕ) (w : Ways)
    → ways_after true (suc (suc (suc (suc (suc n))))) w ≡ ways_after true (suc (suc (suc n))) w
unfolding ways_after
ways_after-alternates n (TransportKind.http, ExtractKind.universal) = refl
ways_after-alternates n (TransportKind.http, ExtractKind.adapter) = refl
ways_after-alternates n (TransportKind.http, ExtractKind.intelligent) = refl
ways_after-alternates n (TransportKind.browser, ExtractKind.universal) = refl
ways_after-alternates n (TransportKind.browser, ExtractKind.adapter) = refl
ways_after-alternates n (TransportKind.browser, ExtractKind.intelligent) = refl

-- The two ways of the cycle stay apart.
cycle_differs :
    (n : ℕ)
    → (ways_after true n (TransportKind.browser, ExtractKind.adapter)).1
      ≢ (ways_after true n (TransportKind.browser, ExtractKind.intelligent)).1
unfolding ways_after
cycle_differs zero = λ e. absurd cc
cycle_differs (suc n) = λ e. cycle_differs n (sym e)

ways_after-differs :
    (n : ℕ) (w : Ways)
    → (ways_after true (suc (suc (suc (suc n)))) w).1 ≢ (ways_after true (suc (suc (suc n))) w).1
unfolding ways_after
ways_after-differs n (TransportKind.http, ExtractKind.universal) = λ e. cycle_differs n (sym e)
ways_after-differs n (TransportKind.http, ExtractKind.adapter) = cycle_differs n
ways_after-differs n (TransportKind.http, ExtractKind.intelligent) = cycle_differs n
ways_after-differs n (TransportKind.browser, ExtractKind.universal) = λ e. cycle_differs n (sym e)
ways_after-differs n (TransportKind.browser, ExtractKind.adapter) = cycle_differs n
ways_after-differs n (TransportKind.browser, ExtractKind.intelligent) = λ e. cycle_differs n (sym e)

-- With the name of an adapter, the plans from the third failure on alternate between two and never
-- settle: each plan is that of two failures before, and extracts otherwise than the plan of the
-- failure before.
pub plan_after-alternates :
    (plan : CrawlPlan) (n : ℕ)
    → is_given plan.adapter_name ≡ true
    → (plan_after (suc (suc (suc (suc (suc n))))) plan ≡ plan_after (suc (suc (suc n))) plan)
      × ((plan_after (suc (suc (suc (suc n)))) plan).extract_kind
          ≢ (plan_after (suc (suc (suc n))) plan).extract_kind)
plan_after-alternates plan n h =
    let w : Ways = (plan.transport, plan.extract_kind) in
    let after : (k : ℕ) → plan_after k plan ≡ with_ways (ways_after true k w) plan =
      λ k. plan_after-ways plan true h k w in
    (
      after _ ∙ ap (λ v. with_ways v plan) (ways_after-alternates n w) ∙ sym (after _),
      λ e.
          ways_after-differs n w
            (ap (λ p. p.extract_kind) (sym (after _)) ∙ e ∙ ap (λ p. p.extract_kind) (after _)),
    )
