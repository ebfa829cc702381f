-- ===== src/Config/Tests.antt =====
-- The theorems on src/internal/config at one configuration.
use unet.Base.{◌≡◌, refl, false, [], none, codes}
use unet.Config.{RootConfig, mask, clone_and_mask}
use unet.Config.Manager.{empty_config, Manager, Faults, get_masked}
use unet.Config.Manager.Updates.{IsMasked, get_masked-IsMasked}

abbrev fine : Faults
fine = record {
  create = false;
  write = false;
  sync = false;
  close = false;
  rename = false;
  remove_temp = false;
}

abbrev manager : Manager
manager = record {
  config = record empty_config { ui_token = codes "0123-4567" };
  file = none;
  temps = [];
}

abbrev renamed : RootConfig → RootConfig
renamed c = record c { server_mirror = codes "mirror" }

get_masked-IsMasked_example : IsMasked (codes "0123-4567") (get_masked manager).ui_token
get_masked-IsMasked_example = (get_masked-IsMasked manager).6

shows_last_four : (get_masked manager).ui_token ≡ codes "****4567"
unfolding get_masked clone_and_mask mask
shows_last_four = refl
