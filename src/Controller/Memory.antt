-- ===== src/Controller/Memory.antt =====
-- A small database over whole watts, which fills the interface `Recorder`: it keeps the settings,
-- and of each session that was ended its id and its energy.
use wallbox_homeautomation_g.Base.{List, String, [], ap, inr, none, refl, ◌∷◌}
use wallbox_homeautomation_g.Base.Dict.{Dict, insert, lookup, lookup-insert_ne, lookup-insert_self}
use wallbox_homeautomation_g.Base.Int.{pos, ℤ}
use wallbox_homeautomation_g.Controller.Recorder.{KeepsSettings, Recorder}
use wallbox_homeautomation_g.Go.Result.{ok}

pub record Memory : Type 0 where
  pub settings : Dict String
  pub ended : List (ℤ × ℤ)

abbrev pub blank_memory : Memory
blank_memory = record { settings = []; ended = [] }

instance abbrev pub memory : Recorder ℤ Memory
memory = record {
  insert_event = λ e m. (m, ok tt);
  insert_sample = λ s m. (m, ok tt);
  start_session = λ at reason soc m. (m, ok (pos 7));
  update_session_metrics = λ id energy average peak m. (m, ok tt);
  end_session = λ id at reason soc energy average peak m.
      (record m { ended = (id, energy) ∷ m.ended }, ok tt);
  open_session = λ m. ok none;
  prune_samples = λ at m. (m, ok (pos 0));
  prune_events = λ at m. (m, ok (pos 0));
  get_setting = λ k m. ok (lookup k m.settings);
  set_setting = λ k v m. (record m { settings = insert k v m.settings }, ok tt);
}

pub memory-KeepsSettings : KeepsSettings ℤ Memory
memory-KeepsSettings = record {
  get-set_self = λ k v m written. inr (ap ok (lookup-insert_self k v m.settings));
  get-set_ne = λ j k v m other. inr (ap ok (lookup-insert_ne j k v m.settings other));
  get-insert_event = λ k e m. inr refl;
  get-end_session = λ k id at reason soc energy average peak m. inr refl;
}
