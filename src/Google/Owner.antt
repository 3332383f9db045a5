-- ===== src/Google/Owner.antt =====
-- internal/google/google.go: the messages that an EXECUTE request sends.
use minnal_labs.Base.{
  ℕ, ◌≡◌, refl, String, Bool, true, false, not, Option, none, some, List, [], ◌∷◌, ◌++◌, arith,
  ◌==◌, ==_iff, if◌then◌else◌,
}
use minnal_labs.Base.Rows.{All, All-append}
use minnal_labs.Base.Exec.{
  Outcome, ok, err, Exec, pure, ignored, continue, branch, or_else, ◌>>=◌, modify, gets, Error,
}
use minnal_labs.Models.Topics.{build_topic}
use minnal_labs.World.{
  World, CapInfo, DeviceInfo, Cache, Action, publish, call, cache_query, cache_execute, send,
}
use minnal_labs.State.{get_device, get_product_cap_by_key, set_cap_state}
use minnal_labs.Mqtt.{publish_text}
use minnal_labs.Google.{
  Execution, Command, parse_compound_id, extract_mqtt_payload, send_command, execute_cap,
  execute_device, execute_id, execute_device_commands, execute_command, handle_execute,
}

-- a message on a command topic of a device of the user
pub record IsOwn (user_id : ℕ) (a : Action) : Type 0 where
  pub home_id : ℕ
  pub device_id : ℕ
  pub component : String
  pub key : String
  pub payload : String
  pub same : a ≡ publish (build_topic user_id home_id device_id component key "command") payload

module _ (user_id : ℕ) where
  abbrev pub OnlyOwn : World → Type 0
  OnlyOwn w = All (IsOwn user_id) w.actions

  -- whatever it returns, the code sends no other message
  Sends : {A : Type 0} → Exec World A → Type 0
  Sends m = (w : World) → OnlyOwn w → OnlyOwn (m w).1

  module _ {A : Type 0} where
    Sends-pure : (a : A) → Sends (pure a)
    unfolding Sends pure
    Sends-pure a w h = h

    Sends-if :
        (b : Bool) (m n : Exec World A)
        → (b ≡ true → Sends m)
        → (b ≡ false → Sends n)
        → Sends (if b then m else n)
    Sends-if true m n hm hn = hm refl
    Sends-if false m n hm hn = hn refl

    Sends-ignored : (m : Exec World A) → Sends m → Sends (ignored m)
    unfolding Sends ignored
    Sends-ignored m h = h

  module _ {A B : Type 0} where
    Sends-continue :
        (r : Outcome A) (f : A → Exec World B) → ((a : A) → Sends (f a)) → Sends (continue r f)
    unfolding Sends
    Sends-continue (ok a) f h = h a
    Sends-continue (err e) f h = λ w k. k

    Sends-bind :
        (m : Exec World A) (f : A → Exec World B)
        → Sends m
        → ((a : A) → Sends (f a))
        → Sends (m >>= f)
    unfolding Sends ◌>>=◌ Sends-continue
    Sends-bind m f hm hf w h = let (r, v) = m w in Sends-continue r f hf v (hm w h)

    Sends-branch :
        (r : Outcome A) (g : Error → Exec World B) (f : A → Exec World B)
        → ((e : Error) → Sends (g e))
        → ((a : A) → Sends (f a))
        → Sends (branch r g f)
    unfolding Sends
    Sends-branch (ok a) g f hg hf = hf a
    Sends-branch (err e) g f hg hf = hg e

    Sends-or_else :
        (m : Exec World A) (g : Error → Exec World B) (f : A → Exec World B)
        → Sends m
        → ((e : Error) → Sends (g e))
        → ((a : A) → Sends (f a))
        → Sends (or_else m g f)
    unfolding Sends or_else Sends-branch
    Sends-or_else m g f hm hg hf w h = let (r, v) = m w in Sends-branch r g f hg hf v (hm w h)

  Sends-call : Sends call
  unfolding Sends call
  Sends-call w h = h

  Sends-cache_query : {A : Type 0} (f : Cache → A) → Sends (cache_query f)
  unfolding cache_query gets Sends
  Sends-cache_query f = Sends-bind call _ Sends-call (λ _. gets-Sends)
    where
      gets-Sends : Sends (gets (λ (w : World). f w.cache))
      gets-Sends w h = h

  Sends-cache_execute : (f : Cache → Cache) → Sends (cache_execute f)
  unfolding cache_execute modify Sends
  Sends-cache_execute f = Sends-bind call _ Sends-call (λ _. modify-Sends)
    where
      modify-Sends : Sends (modify (λ (w : World). record w { cache = f w.cache }))
      modify-Sends w h = h

  Sends-publish :
      (home_id device_id : ℕ) (component key payload : String)
      → Sends (publish_text (build_topic user_id home_id device_id component key "command") payload)
  unfolding publish_text send modify Sends
  Sends-publish home_id device_id component key payload =
      Sends-ignored _ (Sends-bind _ _ added (λ _. Sends-call))
    where
      topic : String
      topic = build_topic user_id home_id device_id component key "command"

      added :
          Sends
            (modify (λ (w : World). record w { actions = w.actions ++ publish topic payload ∷ [] }))
      added w h = All-append (IsOwn user_id) w.actions _ h (
        record {
          home_id = home_id;
          device_id = device_id;
          component = component;
          key = key;
          payload = payload;
          same = refl;
        },
        tt,
      )

  send_command-Sends :
      (d : DeviceInfo) (id : ℕ) (key : String) (cap : CapInfo) (payload : Option String)
      → d.user_id ≡ user_id
      → Sends (send_command d id key cap payload)
  unfolding send_command set_cap_state
  send_command-Sends d id key cap none e = Sends-pure _
  send_command-Sends d id key cap (some payload) e =
      Sends-bind _ _
        (Sends-bind _ _ (Sends-ignored _ (Sends-cache_execute _))
          (λ _. rw e (Sends-publish d.home_id id cap.component key payload)))
        (λ _. Sends-pure _)

  execute_cap-Sends :
      (d : DeviceInfo) (id : ℕ) (key : String) (x : Execution) (o : Option CapInfo)
      → d.user_id ≡ user_id
      → Sends (execute_cap d id key x o)
  unfolding execute_cap
  execute_cap-Sends d id key x none e = Sends-pure _
  execute_cap-Sends d id key x (some cap) e =
      Sends-if (not cap.writable) _ _ (λ _. Sends-pure _)
        (λ _. send_command-Sends d id key cap (extract_mqtt_payload x.command x.on) e)

  execute_device-Sends :
      (id : ℕ) (key : String) (x : Execution) (o : Option DeviceInfo)
      → Sends (execute_device user_id id key x o)
  unfolding execute_device get_product_cap_by_key
  execute_device-Sends id key x none = Sends-pure _
  execute_device-Sends id key x (some d) =
      Sends-if (not (d.user_id == user_id)) _ _ (λ _. Sends-pure _)
        (λ e.
          Sends-bind _ _
            (Sends-or_else _ _ _ (Sends-cache_query _) (λ _. Sends-pure _) (λ _. Sends-pure _))
            (λ o.
              execute_cap-Sends d id key x o ((==_iff d.user_id user_id).0 (ground (arith, e)))))

  execute_id-Sends : (x : Execution) (o : Option (ℕ × String)) → Sends (execute_id user_id x o)
  unfolding execute_id get_device
  execute_id-Sends x none = Sends-pure _
  execute_id-Sends x (some (id, key)) =
      Sends-bind _ _
        (Sends-or_else _ _ _ (Sends-cache_query _) (λ _. Sends-pure _) (λ _. Sends-pure _))
        (execute_device-Sends id key x)

  device_commands-Sends :
      (id : String) (xs : List Execution) → Sends (execute_device_commands user_id id xs)
  unfolding execute_device_commands
  device_commands-Sends id [] = Sends-pure _
  device_commands-Sends id (x ∷ xs) =
      Sends-bind _ _ (execute_id-Sends x (parse_compound_id id))
        (λ _. Sends-bind _ _ (device_commands-Sends id xs) (λ _. Sends-pure _))

  command-Sends : (xs : List Execution) (ids : List String) → Sends (execute_command user_id xs ids)
  unfolding execute_command
  command-Sends xs [] = Sends-pure _
  command-Sends xs (id ∷ ids) =
      Sends-bind _ _ (device_commands-Sends id xs)
        (λ _. Sends-bind _ _ (command-Sends xs ids) (λ _. Sends-pure _))

  execute-Sends : (cs : List Command) → Sends (handle_execute user_id cs)
  unfolding handle_execute
  execute-Sends [] = Sends-pure _
  execute-Sends (c ∷ cs) =
      Sends-bind _ _ (command-Sends c.execution c.devices)
        (λ _. Sends-bind _ _ (execute-Sends cs) (λ _. Sends-pure _))

  -- Whatever ids and commands an EXECUTE request names, and whatever calls fail: all that it sends are
  -- messages on command topics of the user who is logged in.
  pub handle_execute-OnlyOwn :
      (cs : List Command) (w : World) → OnlyOwn w → OnlyOwn (handle_execute user_id cs w).1
  unfolding Sends
  handle_execute-OnlyOwn cs w h = execute-Sends cs w h
