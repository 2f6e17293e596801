-- ===== src/Hooks/Patches.antt =====
-- src/hooks/patches.h and the tables of src/hooks/patches.c.
-- The addresses that the linker gives to the module's own objects are a parameter, `Symbols`.
-- An array with its count is a list: each count is `sizeof(table) / sizeof(GamePatch)`.
use patchwork.Prelude.{ℕ, List, [], ◌∷◌}
use patchwork.Hooks.Offsets.{
  lbp_ps3_prod_url_length, lbp_digest_length, lbp_network_key_size, lbp_user_agent_length,
  lbp1_network_key_offset, lbp1_user_agent_offset, lbp1_https_url_offset, lbp1_http_url_offset,
  lbp1_digest_offset, lbp1_playlist_offset, lbp1_resource_check_offset, lbp1_forcejoin_patch_offset,
  lbp1_forcejoin_patch_length, lbp2_network_key_offset, lbp2_user_agent_offset,
  lbp2_https_url_offset, lbp2_http_url_offset, lbp2_digest_offset, lbp2_notification_enable_offset,
  lbp2_resource_check_offset, lbp2_forcejoin_patch_offset, lbp2_forcejoin_patch_length,
  lbp3_network_key_offset, lbp3_user_agent_offset, lbp3_https_url_offset, lbp3_http_url_offset,
  lbp3_digest_offset, lbp3_presence_url_offset, lbp3_live_url_offset,
  lbp3_notification_enable_offset, lbp3_resource_check_offset, lbp3_forcejoin_patch_offset,
  lbp3_forcejoin_patch_length, lbp3_jp_network_key_offset, lbp3_jp_user_agent_offset,
  lbp3_jp_https_url_offset, lbp3_jp_http_url_offset, lbp3_jp_digest_offset,
  lbp3_jp_presence_url_offset, lbp3_jp_live_url_offset, lbp3_jp_notification_enable_offset,
  lbp3_jp_resource_check_offset, lbp3_jp_forcejoin_patch_offset, lbp3_jp_forcejoin_patch_length,
}

pub data PatchType : Type 0 where
  direct indirect : PatchType

pub record GamePatch : Type 0 where
  pub offset : ℕ
  pub source : ℕ
  pub size : ℕ
  pub type : PatchType

-- The variables that hold a pointer, and the objects that are copied themselves.
pub record Symbols : Type 0 where
  pub network_key : ℕ
  pub user_agent : ℕ
  pub server_url : ℕ
  pub server_digest : ℕ
  pub lbp1_playlist_override : ℕ
  pub script_hook_instruction : ℕ
  pub notification_enable_instruction : ℕ
  pub lbp1_force_join_patch : ℕ
  pub lbp2_force_join_patch : ℕ
  pub lbp3_force_join_patch : ℕ
  pub lbp3_jp_force_join_patch : ℕ

-- `{offset, source, size, INDIRECT}`
abbrev pub indirect_patch : ℕ → ℕ → ℕ → GamePatch
indirect_patch o s n = record { offset = o; source = s; size = n; type = indirect }

-- `{offset, source, size}`: the type is zero-initialised.
abbrev pub direct_patch : ℕ → ℕ → ℕ → GamePatch
direct_patch o s n = record { offset = o; source = s; size = n; type = direct }

abbrev pub lbp1_patches : Symbols → List GamePatch
lbp1_patches s =
    indirect_patch lbp1_network_key_offset s.network_key lbp_network_key_size
    ∷ indirect_patch lbp1_user_agent_offset s.user_agent lbp_user_agent_length
    ∷ indirect_patch lbp1_https_url_offset s.server_url lbp_ps3_prod_url_length
    ∷ indirect_patch lbp1_http_url_offset s.server_url lbp_ps3_prod_url_length
    ∷ indirect_patch lbp1_digest_offset s.server_digest lbp_digest_length
    ∷ direct_patch lbp1_playlist_offset s.lbp1_playlist_override 1
    ∷ direct_patch lbp1_resource_check_offset s.script_hook_instruction 4
    ∷ direct_patch lbp1_forcejoin_patch_offset s.lbp1_force_join_patch lbp1_forcejoin_patch_length
    ∷ []

abbrev pub lbp2_patches : Symbols → List GamePatch
lbp2_patches s =
    indirect_patch lbp2_network_key_offset s.network_key lbp_network_key_size
    ∷ indirect_patch lbp2_user_agent_offset s.user_agent lbp_user_agent_length
    ∷ indirect_patch lbp2_https_url_offset s.server_url lbp_ps3_prod_url_length
    ∷ indirect_patch lbp2_http_url_offset s.server_url lbp_ps3_prod_url_length
    ∷ indirect_patch lbp2_digest_offset s.server_digest lbp_digest_length
    ∷ direct_patch lbp2_notification_enable_offset s.notification_enable_instruction 4
    ∷ direct_patch lbp2_resource_check_offset s.script_hook_instruction 4
    ∷ direct_patch lbp2_forcejoin_patch_offset s.lbp2_force_join_patch lbp2_forcejoin_patch_length
    ∷ []

abbrev pub lbp3_patches : Symbols → List GamePatch
lbp3_patches s =
    indirect_patch lbp3_network_key_offset s.network_key lbp_network_key_size
    ∷ indirect_patch lbp3_user_agent_offset s.user_agent lbp_user_agent_length
    ∷ indirect_patch lbp3_https_url_offset s.server_url lbp_ps3_prod_url_length
    ∷ indirect_patch lbp3_http_url_offset s.server_url lbp_ps3_prod_url_length
    ∷ indirect_patch lbp3_presence_url_offset s.server_url lbp_ps3_prod_url_length
    ∷ indirect_patch lbp3_live_url_offset s.server_url lbp_ps3_prod_url_length
    ∷ indirect_patch lbp3_digest_offset s.server_digest lbp_digest_length
    ∷ direct_patch lbp3_notification_enable_offset s.notification_enable_instruction 4
    ∷ direct_patch lbp3_resource_check_offset s.script_hook_instruction 4
    ∷ direct_patch lbp3_forcejoin_patch_offset s.lbp3_force_join_patch lbp3_forcejoin_patch_length
    ∷ []

abbrev pub lbp3_jp_patches : Symbols → List GamePatch
lbp3_jp_patches s =
    indirect_patch lbp3_jp_network_key_offset s.network_key lbp_network_key_size
    ∷ indirect_patch lbp3_jp_user_agent_offset s.user_agent lbp_user_agent_length
    ∷ indirect_patch lbp3_jp_https_url_offset s.server_url lbp_ps3_prod_url_length
    ∷ indirect_patch lbp3_jp_http_url_offset s.server_url lbp_ps3_prod_url_length
    ∷ indirect_patch lbp3_jp_presence_url_offset s.server_url lbp_ps3_prod_url_length
    ∷ indirect_patch lbp3_jp_live_url_offset s.server_url lbp_ps3_prod_url_length
    ∷ indirect_patch lbp3_jp_digest_offset s.server_digest lbp_digest_length
    ∷ direct_patch lbp3_jp_notification_enable_offset s.notification_enable_instruction 4
    ∷ direct_patch lbp3_jp_resource_check_offset s.script_hook_instruction 4
    ∷ direct_patch lbp3_jp_forcejoin_patch_offset s.lbp3_jp_force_join_patch
        lbp3_jp_forcejoin_patch_length
    ∷ []
