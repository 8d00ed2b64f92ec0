-- ===== src/Api/Instances/Secrets.antt =====
-- The view of an instance does not show its secrets, and they are not lost when it is sent back without them.
use ycfrp.Base.{Bool-cases, inl, inr, String, ◌==◌, ◌≡◌, refl, List}
use ycfrp.Frp.Instance.{Instance, kind_label, enabled, ports}
use ycfrp.Frp.Engine.Statuses.{InstanceStatus}
use ycfrp.Api.Instances.{has, keep_instance_secrets, server_view, instance_view_with, instance_view}

-- The same instance with other secrets.
abbrev pub with_secrets : String → String → String → Instance → Instance
with_secrets server_token dashboard_pwd client_token i = record i {
  server = record i.server { token = server_token; dashboard_pwd = dashboard_pwd };
  client = record i.client { token = client_token };
}

-- `instanceView` depends on the two tokens and the dashboard's password of an instance only by whether each is
-- blank: with any others in their place that are blank or not as these are, the view is the same. And
-- `keepInstanceSecrets` makes of an instance that comes back with the three empty the one that the panel has.
pub view_hides :
    {I C : Type 0} (i : Instance) (statuses : List (InstanceStatus I C)) (s p c : String)
    → has s ≡ has i.server.token
    → has p ≡ has i.server.dashboard_pwd
    → has c ≡ has i.client.token
    → (instance_view (with_secrets s p c i) statuses ≡ instance_view i statuses)
      × (keep_instance_secrets (with_secrets "" "" "" i) i ≡ i)
unfolding instance_view instance_view_with server_view keep_instance_secrets kind_label enabled
    ports
view_hides i statuses s p c hs hp hc = (
  rw (hs, hp, hc) refl,
  elim (Bool-cases (i.kind == "")) [ inl e ↦ rw e refl | inr e ↦ rw e refl ],
)
