-- ===== src/DataModel/Commands/Laws.antt =====
-- matter/src/data_model/core.rs: which clusters a command reaches.
use matter_rs.Base.{ℕ, ◌^◌, ◌%◌, ◌≡◌, refl, some}
use matter_rs.InteractionModel.Messages.{is_wildcard}
use matter_rs.InteractionModel.Commands.{CommandReq, InvResp}
use matter_rs.Acl.Entry.{GenericPath}
use matter_rs.DataModel.Cluster.{ClusterType}
use matter_rs.DataModel.Node.{Node}
use matter_rs.DataModel.Node.Named.{Covers}
use matter_rs.DataModel.Node.Changing.{Change}
use matter_rs.DataModel.Node.Pointwise.{SameNode, for_each_cluster_mut-SameNode}
use matter_rs.DataModel.Commands.{run_command, handle_command_path}

module _ {W T : Type 0} (emit : InvResp → W → W) (methods : ClusterType T)
    (handle_command : Change T (CommandReq W)) (path : GenericPath) where
  -- A cluster is as it was, or the path names it and it has handled the command, under a path with its
  -- own endpoint and number.
  pub data MayHandle (id : ℕ) (c c' : T) : Type 0 where
    stays : c' ≡ c → MayHandle id c c'
    handles :
        (req : CommandReq W)
        → Covers path.endpoint id
        → Covers path.cluster (methods.base c).id
        → req.cmd
          ≡ record path { endpoint = some (id % 2 ^ 16); cluster = some ((methods.base c).id) }
        → c' ≡ (handle_command c req).1.0
        → MayHandle id c c'

module _ {W T : Type 0} (emit : InvResp → W → W) (methods : ClusterType T)
    (handle_command : Change T (CommandReq W)) (req : CommandReq W) (node : Node T) where
  -- Whatever it is answered with, a command reaches each cluster at most once, only clusters that its
  -- path names, and with the concrete path of the cluster; all others stay as they were.
  pub handle_command_path-MayHandle :
      SameNode
        (MayHandle emit methods handle_command req.cmd)
        0
        node
        (handle_command_path emit methods handle_command req node).1.0
  unfolding handle_command_path run_command
  handle_command_path-MayHandle =
      for_each_cluster_mut-SameNode (MayHandle emit methods handle_command req.cmd)
        (λ id c. stays refl) methods (run_command emit methods handle_command (is_wildcard req.cmd))
        req.cmd node req
        (λ id c r e k.
          handles
            (record r {
              cmd = record (req.cmd) {
                endpoint = some (id % 2 ^ 16);
                cluster = some ((methods.base c).id);
              };
            })
            e k refl refl)
