-- ===== src/Admission/Accept/Addresses.antt =====
-- The address by which handle_accept of src/core/load_balancer.cpp judges a client.
use loadbalancer.Base.{◌≡◌, ◌⊎◌, [], Memᴰ, Text}
use loadbalancer.Admission.Config.{Config}

-- The black list does not have the address, and the white list is empty or has it.
abbrev pub MayCome : Text → Config → Type 0
MayCome ip config =
    ¬ Memᴰ ip config.ip_blacklist × ((config.ip_whitelist ≡ []) ⊎ Memᴰ ip config.ip_whitelist)
