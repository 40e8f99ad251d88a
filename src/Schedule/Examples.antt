-- ===== src/Schedule/Examples.antt =====
-- The theorem on regimes for a winter and a summer regime, and tests of the choice.
use mathlib.Core.List.{Memᴰ}
use ocm.Prelude.{◌≡◌, refl, [], ◌∷◌, some}
use ocm.Calendar.{Date, month_day}
use ocm.Schedule.{Period, Regime, active_for}
use ocm.Schedule.Active.{InForce, active_for-InForce}

abbrev period : Period
period = record { id = 1; regime_id = 1; period_index = 1; start_time = []; end_time = [] }

abbrev winter : Regime
winter = record {
  id = 1;
  name = [];
  effective_month = 10;
  effective_day = 1;
  periods = period ∷ [];
}

abbrev summer : Regime
summer = record { id = 2; name = []; effective_month = 5; effective_day = 1; periods = period ∷ [] }

abbrev june : Date
june = record { year = 2025; month = 6; day = 15 }

abbrev january : Date
january = record { year = 2025; month = 1; day = 15 }

active_for-InForce_example :
    (r : Regime) × (active_for (winter ∷ summer ∷ []) june ≡ some r)
    × Memᴰ r (winter ∷ summer ∷ [])
    × InForce (winter ∷ summer ∷ []) (month_day june) r
active_for-InForce_example = active_for-InForce (winter ∷ summer ∷ []) june (λ e. cc)

summer_in_june : active_for (winter ∷ summer ∷ []) june ≡ some summer
unfolding active_for
summer_in_june = refl

-- Before the first regime of the year the last one of the year before goes on.
winter_in_january : active_for (summer ∷ winter ∷ []) january ≡ some winter
unfolding active_for
winter_in_january = refl
