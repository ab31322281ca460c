-- ===== src/Evcc/Store/Frame.antt =====
-- What a message does to the store of state.go: each topic reaches its own metric and no other.
use wallbox_homeautomation_g.Base.{Bool, String, arith, true, ◌==◌, ◌≡◌}
use wallbox_homeautomation_g.Evcc.Store.{Snapshot, apply_to, set_bool, set_float}
use wallbox_homeautomation_g.Evcc.Topics.{new_topics}
use wallbox_homeautomation_g.Evcc.Topics.Distinct.{
  Metric, battery_power, battery_soc, charge_power, charging, connected, enabled, grid, home,
  limit_soc, mode, online, pv, same_metric, topic_of, topic_of-==, vehicle_soc,
}
use wallbox_homeautomation_g.Go.Float.{Float}
use wallbox_homeautomation_g.Go.Time.{Time}

abbrev with {κ κ'} : {A : Type κ} {B : Type κ'} → (A → B) → A × Bool → B × Bool
with g (a, ok) = (g a, ok)

module _ {ℓ} {W : Type ℓ} ⦃f : Float W⦄ where
  -- Each metric takes the value that the payload spells, or stays as it was.
  unfoldable pub record_metric : Metric → String → Time → Snapshot W → Snapshot W × Bool
  record_metric grid p at s = with (λ m. record s { grid = m }) (set_float s.grid p at)
  record_metric pv p at s = with (λ m. record s { pv = m }) (set_float s.pv p at)
  record_metric home p at s = with (λ m. record s { home = m }) (set_float s.home p at)
  record_metric battery_power p at s =
      with (λ m. record s { battery_power = m }) (set_float s.battery_power p at)
  record_metric battery_soc p at s =
      with (λ m. record s { battery_soc = m }) (set_float s.battery_soc p at)
  record_metric charge_power p at s =
      with (λ m. record s { charge_power = m }) (set_float s.charge_power p at)
  record_metric vehicle_soc p at s =
      with (λ m. record s { vehicle_soc = m }) (set_float s.vehicle_soc p at)
  record_metric limit_soc p at s =
      with (λ m. record s { limit_soc = m }) (set_float s.limit_soc p at)
  record_metric charging p at s = with (λ m. record s { charging = m }) (set_bool s.charging p at)
  record_metric connected p at s =
      with (λ m. record s { connected = m }) (set_bool s.connected p at)
  record_metric enabled p at s = with (λ m. record s { enabled = m }) (set_bool s.enabled p at)
  record_metric mode p at s = (record s { mode = record { value = p; at = at; seen = true } }, true)
  record_metric online p at s =
      (record s { online = record { value = p == "online"; at = at; seen = true } }, true)

  -- With the topics that `NewTopics` builds, a message on the topic of a metric updates that
  -- metric alone, as its payload says: no topic is shadowed by an earlier case of the `switch`.
  pub apply_to-routes :
      (prefix id : String) (m : Metric) (payload : String) (at : Time) (s : Snapshot W)
      → let t = new_topics prefix id in
        apply_to t (topic_of t m) payload at s ≡ record_metric m payload at s
  unfolding apply_to record_metric topic_of same_metric
  apply_to-routes p id grid x at s = rw (topic_of-== p id grid grid)
  apply_to-routes p id m x at s = ground (
    arith,
    topic_of-== p id m grid,
    topic_of-== p id m pv,
    topic_of-== p id m home,
    topic_of-== p id m battery_power,
    topic_of-== p id m battery_soc,
    topic_of-== p id m charge_power,
    topic_of-== p id m vehicle_soc,
    topic_of-== p id m limit_soc,
    topic_of-== p id m charging,
    topic_of-== p id m connected,
    topic_of-== p id m enabled,
    topic_of-== p id m mode,
    topic_of-== p id m online,
  )
