-- ===== src/Natives/Settings.antt =====
-- The connect options under src/natives.cpp: how mqtt_set_options fills them in, and how mqtt_connect
-- uses them up.
use amxx_mqtt_client.Prelude.{
  ℕ, ◌≤◌, ◌≡◌, none, some, List, [], ◌∷◌, ◌++◌, arith, ltb, ◌==◌, if◌then◌else◌, Bool-cases, inl,
  inr,
}
use amxx_mqtt_client.External.{
  Cell, Call, set_user_name, set_password, set_clean_start, set_properties, clear,
  add_session_expiry, invalid_option_name, what, paho, External,
}
use amxx_mqtt_client.MqttClient
use amxx_mqtt_client.MqttClientMgr.{Client, get_client}
use amxx_mqtt_client.ConnectOptionMgr
use amxx_mqtt_client.ConnectOptionMgr.{ConnectOption, ConnectOptionMgr}
use amxx_mqtt_client.ConnectOptionMgr.Indices.{look, look-get_options, look-write, look-destroy}
use amxx_mqtt_client.World.{World}
use amxx_mqtt_client.Natives.Args.{param, arg_count, greater}
use amxx_mqtt_client.Natives.Clients.{mqtt_connect}
use amxx_mqtt_client.Natives.Options.{mqtt_set_options}

module _ (ext : External) (params : List Cell) (w : World) (c : Client) (o : ConnectOption) where
  -- mqtt_connect with enough arguments, a live client and live options passes to Paho the calls
  -- made on the options, in their order. Whether Paho throws or not, the options are gone
  -- afterwards, all other options, the clients and the queue are as they were, and the result
  -- tells the one case from the other.
  pub mqtt_connect_consumes :
      2 ≤ arg_count params
      → get_client w.mgr (param params 1) ≡ some c
      → look w.options (param params 2) ≡ some o
      → let out = mqtt_connect ext params w in
        let call = Call.connect c.client o.option in
        (out.1.history ≡ (elim (ext.failure w.history call) [
          | none ↦ call ∷ w.history
          | some e ↦ Call.log_error (what (paho e)) ∷ call ∷ w.history
        ]))
        × (out.0 ≡ (elim (ext.failure w.history call) [ none ↦ 1 | some _ ↦ 0 ]))
        × ((j : Cell)
            → look out.1.options j ≡ (if param params 2 == j then none else look w.options j))
        × (out.1.mgr ≡ w.mgr)
        × (out.1.dispatcher ≡ w.dispatcher)
  unfolding mqtt_connect MqttClient.connect
  mqtt_connect_consumes enough f l =
      let os = (ConnectOptionMgr.get_options w.options (param params 2)).1 in
      let k = param params 2 in
      let e : (mqtt_connect ext params w).1.options ≡ ConnectOptionMgr.destroy os k =
        ground arith in
      (
        ground arith,
        ground arith,
        λ j. rw (e, look-destroy os k j) (ground (arith, look-get_options w.options k j)),
        ground arith,
        ground arith,
      )

  -- What the four names do to the options: one call more, and the
  -- properties cleared before the interval is added.
  abbrev pub option_after : ℕ → ConnectOption
  option_after name =
      let text = ext.amx_string w.history (param params 3) in
      let value = ext.amx_addr w.history (param params 3) in
      if name == 0
      then record o { option = o.option ++ set_user_name text ∷ [] }
      else if name == 1
      then record o { option = o.option ++ set_password text ∷ [] }
      else if name == 2
      then record o { option = o.option ++ set_clean_start (greater value 0) ∷ [] }
      else (let ps = o.properties ++ clear ∷ add_session_expiry value ∷ [] in
          record { option = o.option ++ set_properties ps ∷ []; properties = ps })

  -- mqtt_set_options with enough arguments on live options returns 1 exactly for the names 0 to 3.
  -- It then changes those options as the name says and no others; for another name it reports and
  -- changes no options. The clients are as they were.
  pub mqtt_set_options_writes :
      3 ≤ arg_count params
      → look w.options (param params 1) ≡ some o
      → let out = mqtt_set_options ext params w in
        let name = param params 2 in
        (out.0 ≡ (if ltb name 4 then 1 else 0))
        × ((j : Cell)
            → look out.1.options j ≡ (
                if param params 1 == j
                then some (if ltb name 4 then option_after name else o)
                else look w.options j))
        × (out.1.mgr ≡ w.mgr)
        × (out.1.history
            ≡ (if ltb name 4 then w.history else Call.log_error invalid_option_name ∷ w.history))
  unfolding mqtt_set_options
  mqtt_set_options_writes enough l = (
    ground arith,
    λ j. elim (Bool-cases (ltb (param params 2) 4)) [
      | inl named ↦
          let e : (mqtt_set_options ext params w).1.options
              ≡ ConnectOptionMgr.write os k (option_after (param params 2)) =
            ground arith in
          rw (e, look-write os k j) (ground (arith, look-get_options w.options k j))
      | inr other ↦
          let e : (mqtt_set_options ext params w).1.options ≡ os = ground arith in
          rw e (ground (arith, l, look-get_options w.options k j))
    ],
    ground arith,
    ground arith,
  )
    where
      k : Cell
      k = param params 1

      os : ConnectOptionMgr
      os = (ConnectOptionMgr.get_options w.options k).1
