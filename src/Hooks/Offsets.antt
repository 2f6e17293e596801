-- ===== src/Hooks/Offsets.antt =====
-- src/offsets.h: where each game keeps what is patched, and how many bytes are patched.
-- The lengths and offsets that no patch uses are left out.
use patchwork.Prelude.{ℕ}

abbrev pub lbp_ps3_prod_url_length : ℕ
lbp_ps3_prod_url_length = 70

abbrev pub lbp_digest_length : ℕ
lbp_digest_length = 18

abbrev pub lbp_network_key_size : ℕ
lbp_network_key_size = 16

abbrev pub lbp_user_agent_length : ℕ
lbp_user_agent_length = 22

abbrev pub lbp1_network_key_offset : ℕ
lbp1_network_key_offset = 0x0074C418

abbrev pub lbp1_user_agent_offset : ℕ
lbp1_user_agent_offset = 0x0079FDA0

abbrev pub lbp1_https_url_offset : ℕ
lbp1_https_url_offset = 0x00767C40

abbrev pub lbp1_http_url_offset : ℕ
lbp1_http_url_offset = 0x00767CF8

abbrev pub lbp1_digest_offset : ℕ
lbp1_digest_offset = 0x0079FBC0

abbrev pub lbp1_playlist_offset : ℕ
lbp1_playlist_offset = 0x0074C2C0

abbrev pub lbp1_resource_check_offset : ℕ
lbp1_resource_check_offset = 0x00081BC8

abbrev pub lbp1_forcejoin_patch_offset : ℕ
lbp1_forcejoin_patch_offset = 0x003ab70c

abbrev pub lbp1_forcejoin_patch_length : ℕ
lbp1_forcejoin_patch_length = 64

abbrev pub lbp2_network_key_offset : ℕ
lbp2_network_key_offset = 0x00C248CC

abbrev pub lbp2_user_agent_offset : ℕ
lbp2_user_agent_offset = 0x00C36320

abbrev pub lbp2_https_url_offset : ℕ
lbp2_https_url_offset = 0x00C51B68

abbrev pub lbp2_http_url_offset : ℕ
lbp2_http_url_offset = 0x00C51C08

abbrev pub lbp2_digest_offset : ℕ
lbp2_digest_offset = 0x00C361D0

abbrev pub lbp2_notification_enable_offset : ℕ
lbp2_notification_enable_offset = 0x0023B398

abbrev pub lbp2_resource_check_offset : ℕ
lbp2_resource_check_offset = 0x00153D74

abbrev pub lbp2_forcejoin_patch_offset : ℕ
lbp2_forcejoin_patch_offset = 0x00285fb8

abbrev pub lbp2_forcejoin_patch_length : ℕ
lbp2_forcejoin_patch_length = 120

abbrev pub lbp3_network_key_offset : ℕ
lbp3_network_key_offset = 0x00D9D21C

abbrev pub lbp3_user_agent_offset : ℕ
lbp3_user_agent_offset = 0x00D8BF50

abbrev pub lbp3_https_url_offset : ℕ
lbp3_https_url_offset = 0x00D9E5D8

abbrev pub lbp3_http_url_offset : ℕ
lbp3_http_url_offset = 0x00D9E4C4

abbrev pub lbp3_digest_offset : ℕ
lbp3_digest_offset = 0x00D8BD08

abbrev pub lbp3_presence_url_offset : ℕ
lbp3_presence_url_offset = 0x00D9E53C

abbrev pub lbp3_live_url_offset : ℕ
lbp3_live_url_offset = 0x00D9E58C

abbrev pub lbp3_notification_enable_offset : ℕ
lbp3_notification_enable_offset = 0x002C15D0

abbrev pub lbp3_resource_check_offset : ℕ
lbp3_resource_check_offset = 0x001CFC6C

abbrev pub lbp3_forcejoin_patch_offset : ℕ
lbp3_forcejoin_patch_offset = 0x0030561C

abbrev pub lbp3_forcejoin_patch_length : ℕ
lbp3_forcejoin_patch_length = 112

abbrev pub lbp3_jp_network_key_offset : ℕ
lbp3_jp_network_key_offset = 0x00D8305C

abbrev pub lbp3_jp_user_agent_offset : ℕ
lbp3_jp_user_agent_offset = 0x00D71DE8

abbrev pub lbp3_jp_https_url_offset : ℕ
lbp3_jp_https_url_offset = 0x00D84338

abbrev pub lbp3_jp_http_url_offset : ℕ
lbp3_jp_http_url_offset = 0x00D84224

abbrev pub lbp3_jp_digest_offset : ℕ
lbp3_jp_digest_offset = 0x00D71BA0

abbrev pub lbp3_jp_presence_url_offset : ℕ
lbp3_jp_presence_url_offset = 0x00D8429C

abbrev pub lbp3_jp_live_url_offset : ℕ
lbp3_jp_live_url_offset = 0x00D842EC

abbrev pub lbp3_jp_notification_enable_offset : ℕ
lbp3_jp_notification_enable_offset = 0x002BF520

abbrev pub lbp3_jp_resource_check_offset : ℕ
lbp3_jp_resource_check_offset = 0x001CFB08

abbrev pub lbp3_jp_forcejoin_patch_offset : ℕ
lbp3_jp_forcejoin_patch_offset = 0x00301e34

abbrev pub lbp3_jp_forcejoin_patch_length : ℕ
lbp3_jp_forcejoin_patch_length = 112
