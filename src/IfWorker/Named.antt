-- ===== src/IfWorker/Named.antt =====
-- A request of NmWorkerIf (src/nmworkerif.cpp) with a valid interface name.
use nmdaemon.Exec.{Exec}
use nmdaemon.Fields.{text_field}
use nmdaemon.IfWorker.{named, with_name}
use nmdaemon.Json.{Json}
use nmdaemon.Keys.{json_param_if_name}
use nmdaemon.Prelude.{◌≡◌, refl, true, Option, some}
use nmdaemon.Text.{Text}
use nmdaemon.Tool.Names.{is_valid_if_name}

module _ {K : Type 0} (js : Json) where
  open js use {Value}

  named-at :
      (o : Option Text) (name : Text) (f : Text → Exec K Value)
      → o ≡ some name
      → is_valid_if_name name ≡ true
      → named {K = K} js o f ≡ f name
  unfolding named
  named-at o name f h valid = rw h (rw valid refl)

  pub with_name-at :
      (j : Value) (name : Text) (f : Text → Exec K Value)
      → text_field js json_param_if_name j ≡ some name
      → is_valid_if_name name ≡ true
      → with_name js j f ≡ f name
  unfolding with_name
  with_name-at j name f h valid = named-at (text_field js json_param_if_name j) name f h valid
