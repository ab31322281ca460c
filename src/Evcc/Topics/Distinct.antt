-- ===== src/Evcc/Topics/Distinct.antt =====
-- The topics of topics.go's `NewTopics`: each metric has a topic of its own, whatever the prefix
-- and the loadpoint id.
use Prim.Native.Char.{code}
use wallbox_homeautomation_g.Base.{
  ==_false, ==_iff, Bool, Bool-absurd, String, ap, arith, eqb, false, inl, inr, not, refl, true, ℕ,
  ◌==◌, ◌∙◌, ◌≡◌, ◌⊎◌,
}
use wallbox_homeautomation_g.Evcc.Topics.{Topics, new_topics}
use wallbox_homeautomation_g.Go.Strings.{+s_assoc, ==-+s, ◌+s◌}

pub data Metric : Type 0 where
  grid pv home battery_power battery_soc charge_power vehicle_soc limit_soc : Metric
  charging connected enabled mode online : Metric

pub Metric-discrete : Discrete Metric
Metric-discrete = hlevel

-- the topic that reports a metric
unfoldable pub topic_of : Topics → Metric → String
topic_of t grid = t.grid_power
topic_of t pv = t.pv_power
topic_of t home = t.home_power
topic_of t battery_power = t.battery_power
topic_of t battery_soc = t.battery_soc
topic_of t charge_power = t.charge_power
topic_of t vehicle_soc = t.vehicle_soc
topic_of t limit_soc = t.limit_soc
topic_of t charging = t.charging
topic_of t connected = t.connected
topic_of t enabled = t.enabled
topic_of t mode = t.mode
topic_of t online = t.status

abbrev Place : Type 0
Place = String ⊎ String

-- Where the topic stands: below the site, or below the loadpoint.
place : Metric → Place
place grid = inl "/site/grid/power"
place pv = inl "/site/pvPower"
place home = inl "/site/homePower"
place battery_power = inl "/site/battery/power"
place battery_soc = inl "/site/battery/soc"
place charge_power = inr "/chargePower"
place vehicle_soc = inr "/vehicleSoc"
place limit_soc = inr "/limitSoc"
place charging = inr "/charging"
place connected = inr "/connected"
place enabled = inr "/enabled"
place mode = inr "/mode"
place online = inl "/status"

abbrev below : String → Place → String
below id (inl s) = s
below id (inr s) = "/loadpoints/" +s id +s s

regroup : (p id x : String) → p +s "/loadpoints/" +s id +s x ≡ p +s ("/loadpoints/" +s id +s x)
regroup p id x =
    ap (λ s. s +s x) (+s_assoc p "/loadpoints/" id) ∙ +s_assoc p ("/loadpoints/" +s id) x

topic_of-new_topics :
    (prefix id : String) (m : Metric)
    → topic_of (new_topics prefix id) m ≡ prefix +s below id (place m)
unfolding topic_of new_topics place
topic_of-new_topics p id grid = refl
topic_of-new_topics p id pv = refl
topic_of-new_topics p id home = refl
topic_of-new_topics p id battery_power = refl
topic_of-new_topics p id battery_soc = refl
topic_of-new_topics p id charge_power = regroup p id "/chargePower"
topic_of-new_topics p id vehicle_soc = regroup p id "/vehicleSoc"
topic_of-new_topics p id limit_soc = regroup p id "/limitSoc"
topic_of-new_topics p id charging = regroup p id "/charging"
topic_of-new_topics p id connected = regroup p id "/connected"
topic_of-new_topics p id enabled = regroup p id "/enabled"
topic_of-new_topics p id mode = regroup p id "/mode"
topic_of-new_topics p id online = refl

-- The second character tells a site topic, a loadpoint topic and the status topic apart.
second : String → ℕ
second String.[] = 0
second (String.◌∷◌ c String.[]) = 0
second (String.◌∷◌ c (String.◌∷◌ d s)) = code d

site-ne-loadpoint :
    (s id x : String) → eqb (second s) b'l' ≡ false → (s == ("/loadpoints/" +s id +s x)) ≡ false
unfolding second ◌+s◌
site-ne-loadpoint s id x h = ==_false s _ λ e. Bool-absurd (ap (λ t. eqb (second t) b'l') e) h

==_comm : (s t : String) → (s == t) ≡ (t == s)
==_comm s t = ground (arith, ==_iff s t, ==_iff t s)

-- What keeps a site topic apart from every loadpoint topic.
is_apart : Place → Bool
is_apart (inl s) = not (eqb (second s) b'l')
is_apart (inr s) = true

same_place : Place → Place → Bool
same_place (inl s) (inl t) = s == t
same_place (inr s) (inr t) = s == t
same_place (inl s) (inr t) = false
same_place (inr s) (inl t) = false

below-== :
    (id : String) (a b : Place)
    → is_apart a ≡ true
    → is_apart b ≡ true
    → (below id a == below id b) ≡ same_place a b
unfolding is_apart same_place
below-== id (inl s) (inl t) h k = refl
below-== id (inr s) (inr t) h k = ==-+s ("/loadpoints/" +s id) s t
below-== id (inl s) (inr t) h k = site-ne-loadpoint s id t (ground arith)
below-== id (inr s) (inl t) h k =
    ==_comm (below id (inr s)) t ∙ site-ne-loadpoint t id s (ground arith)

-- The declaration order, to tell metrics apart.
number : Metric → ℕ
number grid = 0
number pv = 1
number home = 2
number battery_power = 3
number battery_soc = 4
number charge_power = 5
number vehicle_soc = 6
number limit_soc = 7
number charging = 8
number connected = 9
number enabled = 10
number mode = 11
number online = 12

unfoldable pub same_metric : Metric → Metric → Bool
unfolding number
same_metric m n = eqb (number m) (number n)

place-is_apart : (m : Metric) → is_apart (place m) ≡ true
unfolding is_apart place second
place-is_apart grid = refl
place-is_apart _ = refl

same_place-place : (m n : Metric) → same_place (place m) (place n) ≡ same_metric m n
unfolding same_place place same_metric ◌==◌
same_place-place grid grid = refl
same_place-place pv grid = refl
same_place-place home grid = refl
same_place-place battery_power grid = refl
same_place-place battery_soc grid = refl
same_place-place charge_power grid = refl
same_place-place vehicle_soc grid = refl
same_place-place limit_soc grid = refl
same_place-place charging grid = refl
same_place-place connected grid = refl
same_place-place enabled grid = refl
same_place-place mode grid = refl
same_place-place online grid = refl
same_place-place _ _ = refl

-- Whatever the prefix and the loadpoint id, the topics that `NewTopics` builds for two metrics are
-- equal exactly when the metrics are the same.
pub topic_of-== :
    (prefix id : String) (m n : Metric)
    → (topic_of (new_topics prefix id) m == topic_of (new_topics prefix id) n) ≡ same_metric m n
topic_of-== p id m n =
    rw (topic_of-new_topics p id m, topic_of-new_topics p id n)
      (==-+s p (below id (place m)) (below id (place n))
        ∙ below-== id (place m) (place n) (place-is_apart m) (place-is_apart n)
        ∙ same_place-place m n)
