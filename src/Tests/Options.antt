-- ===== src/Tests/Options.antt =====
-- Two options of the DHCPv6 client.
use rdk_wanmanager.Common.{◌≡◌, refl, true, false, none, [], ◌∷◌}
use rdk_wanmanager.Dhcpc.Data4.{text}
use rdk_wanmanager.Dhcpc.Sent6.{
  Sent6, Slot6, Sents6, adds, deletes, request6, backend_sent_options6, add_sent_option6,
  client_lines, take_effect,
}
use rdk_wanmanager.Dhcpc.Sent6.Stored.{IsMirrored}
use rdk_wanmanager.Dhcpc.Sent6.Mirror.{request6-IsMirrored}
use rdk_wanmanager.Dhcpc.Sent6.Reload.{all_retagged, backend_sent_options6_lem}

abbrev no_slot : Slot6
no_slot = record { number = none; alias = none; enabled = none; tag = none; value = none }

abbrev no_options : Sents6
no_options = record {
  options = [];
  syscfg = record { num = none; slot = λ k. no_slot };
  file = [];
  restarts = 0;
}

abbrev vendor : Sent6
vendor = record {
  instance_number = 1;
  alias = text "vendor";
  enabled = true;
  tag = 16;
  value = text "0000";
}

abbrev user : Sent6
user = record {
  instance_number = 2;
  alias = text "user";
  enabled = false;
  tag = 15;
  value = text "00";
}

no_options-IsMirrored : IsMirrored no_options
unfolding client_lines
no_options-IsMirrored = record { counted = refl; stored = tt; written = refl }

both : Sents6
both =
    request6 (λ x. no_slot) 1 (adds 1 user) (request6 (λ x. no_slot) 1 (adds 1 vendor) no_options)

both-IsMirrored : IsMirrored both
unfolding both
both-IsMirrored =
    request6-IsMirrored (λ x. no_slot) 1 (adds 1 user)
      (request6 (λ x. no_slot) 1 (adds 1 vendor) no_options)
      (request6-IsMirrored (λ x. no_slot) 1 (adds 1 vendor) no_options no_options-IsMirrored)

request6-IsMirrored_example : IsMirrored (request6 (λ x. no_slot) 1 (deletes 1 1) both)
request6-IsMirrored_example =
    request6-IsMirrored (λ x. no_slot) 1 (deletes 1 1) both both-IsMirrored

-- Another process, after the first.
abbrev restarted : Sents6
restarted = record no_options { syscfg = both.syscfg; file = both.file }

backend_sent_options6_lem_example :
    (backend_sent_options6 vendor restarted).options ≡ all_retagged both.options
backend_sent_options6_lem_example =
    backend_sent_options6_lem vendor both restarted both-IsMirrored refl refl

two_options : both.options ≡ vendor ∷ user ∷ []
unfolding both request6 add_sent_option6 take_effect
two_options = refl
