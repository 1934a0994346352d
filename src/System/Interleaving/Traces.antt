-- ===== src/System/Interleaving/Traces.antt =====
-- What a sequence of the finer steps is in the words of System, but for the calls of handlers.
use amxx_mqtt_client.Prelude.{◌≡◌, refl, ap, List, [], ◌∷◌, ◌++◌}
use amxx_mqtt_client.External.{External}
use amxx_mqtt_client.System.{
  Action, native, thread, attach, plugins_loaded, plugins_unloading, detach, network, deliver,
}
use amxx_mqtt_client.System.Interleaving.{
  State, IsGame, action_of, Step, game, begin_destroy, begin_unloading, begin_detach, swap,
  unregister, stop, delete, finish, enter, enter_dying, copy, call, Steps, here, next,
}

abbrev pub without_deliveries : List Action → List Action
without_deliveries [] = []
without_deliveries (thread (deliver _) ∷ rest) = without_deliveries rest
without_deliveries (a ∷ rest) = a ∷ without_deliveries rest

pub without_deliveries-append :
    (as' bs : List Action)
    → without_deliveries (as' ++ bs) ≡ without_deliveries as' ++ without_deliveries bs
without_deliveries-append [] bs = refl
without_deliveries-append (thread (deliver k) ∷ rest) bs = without_deliveries-append rest bs
without_deliveries-append (thread (network k e) ∷ rest) bs =
    ap (λ x. thread (network k e) ∷ x) (without_deliveries-append rest bs)
without_deliveries-append (native n ps ∷ rest) bs =
    ap (λ x. native n ps ∷ x) (without_deliveries-append rest bs)
without_deliveries-append (attach e ∷ rest) bs =
    ap (λ x. attach e ∷ x) (without_deliveries-append rest bs)
without_deliveries-append (plugins_loaded ∷ rest) bs =
    ap (λ x. plugins_loaded ∷ x) (without_deliveries-append rest bs)
without_deliveries-append (plugins_unloading ∷ rest) bs =
    ap (λ x. plugins_unloading ∷ x) (without_deliveries-append rest bs)
without_deliveries-append (detach ∷ rest) bs =
    ap (λ x. detach ∷ x) (without_deliveries-append rest bs)

pub without_deliveries-game : (a : Action) → IsGame a → without_deliveries (a ∷ []) ≡ a ∷ []
without_deliveries-game (native n ps) g = refl
without_deliveries-game (thread t) g = absurd g
without_deliveries-game (attach e) g = refl
without_deliveries-game plugins_loaded g = refl
without_deliveries-game plugins_unloading g = refl
without_deliveries-game detach g = refl

-- An action of the game thread in one step is itself; a destruction is the action that causes it, when
-- it is done; and a callback is its event, when it writes the flag.
abbrev pub traced : {ext : External} {s t : State} → Step ext s t → List Action
traced (game a _ _) = a ∷ []
traced (finish u _) = action_of u ∷ []
traced (enter k e _ _) = thread (network k e) ∷ []
traced (enter_dying k e _ _ _ _ _ _) = thread (network k e) ∷ []
traced (begin_destroy _ _ _ _ _) = []
traced (begin_unloading _) = []
traced (begin_detach _) = []
traced (swap _ _) = []
traced (unregister _ _ _ _ _) = []
traced (stop _ _ _ _ _) = []
traced (delete _ _ _ _ _) = []
traced (copy _ _ _ _ _) = []
traced (call _ _ _ _) = []

abbrev pub trace : {ext : External} {s t : State} → Steps ext s t → List Action
trace here = []
trace (next rs p) = trace rs ++ traced p
