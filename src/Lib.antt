-- ===== src/Lib.antt =====
-- A verification library for the p2p tests: the generator of operator groups and the topology test
-- plan, in which nodes publish the messages of their validators over libp2p pubsub.
--
-- The generator (utils/generate.go) places validators into groups of four operators, keyed by a
-- text identifier; cmd/gen writes its result to files, and the plan's clusters are such a result.
-- An instance of the plan (plans/topology) takes the validators whose shares name its operator
-- (runGroups, runSubnets), learns the other instances (getAllPeers), dials them, listens to topics
-- and publishes in rounds, by way of a node (NewNode), which it closes at its end. A node joins
-- topics through its topic manager, checks messages by a validator for each topic, hands them to
-- its handlers (Listen), limits its connections (notiffee) and counts events (TestTracer).
--
-- Which file models which code:
--   Prelude          native numbers, maps as lists of entries, texts as lists of bytes, Go's int as
--                    the two's complement of a number below 2 ^ 64 (Int), "%d" (Decimal) and
--                    sort.Ints (Sort), with the lemmas that the components share, those on sums over
--                    the instances in Family and those on texts in Texts
--   Utils/Group      Group, Group.ID and Group.Append of utils/generate.go; Identity and Slots prove
--                    what the two methods do
--   Utils/RandGroup  RandGroup, on the list of the numbers that rand.Intn returns; Draws
--   Utils/Generate   Share, GenerateShare, GenerateGroups, GenerateOperatorIDs, Generate; Round is
--                    one round of the loop, Placement the whole loop, Ends when it ends
--   Topology/Errors        Go errors as values
--   Topology/TopicManager  topicManager of plans/topology/topic_manager.go; Interface has the pubsub
--                    library as a record of operations and the laws on it that Leak and Persistence
--                    use; Maps and History are the invariant of its two maps, Idempotence the
--                    repeated calls, Abstract a set of topics and Refinement its relation to them,
--                    RoundTrip a Subscribe that is undone
--   Topology/Notiffee      notiffee of plans/topology/node.go; Bounds, Garbage, RoundTrip
--   Topology/Clusters      plans/topology/clusters.go and groupID of groups.go; Hex
--   Topology/Assignment    the loops over the clusters in runGroups of plans/topology/groups.go and
--                    runSubnets of subnets.go; Members, Topics, Totals, and Coverage, which joins it to
--                    the generator
--   Topology/Subnets       the loop over the subnets in runSubnets and getAllPeers of
--                    plans/topology/subnets.go; Counting, Arrivals
--   Topology/Pubsub        msgValidator, decodeMsg and msgID of plans/topology/pubsub.go; Verdicts
--   Topology/Listen        Node.Listen of plans/topology/pubsub.go; Handling
--   Topology/Listeners     the calls of Listen of both runs up to the start of their loops; Once, Joined
--   Topology/Sending       the rounds in which runGroups and runSubnets publish; Effects, Groups,
--                    Subnets, Missed
--   Topology/Node          NewNode and Close of plans/topology/node.go, setupPubsub and
--                    gossipSubParam of pubsub.go; Release, Tracing
--   Topology/Run           runGroups and runSubnets as a whole, and the table of test cases in
--                    plans/topology/main.go; Known joins the assignment, the listeners and the rounds,
--                    Whole and OverSubnets are runs from their parameters to their end, Distinct is
--                    about the messages of all instances
--   Topology/Handlers      the handlers of both runs, which count messages; Counted
--   Topology/Instances     the instances of a run side by side, as a step relation on their scripts;
--                    Order and Posted are lemmas on these, Barriers is the invariant, Rounds
--                    and Progress what follows from it, Performed joins the script to the rounds
--   Topology/Tracer        plans/topology/tracer.go; Counts, Delivery
--   Gen                    cmd/gen/main.go; Totals
--   Tests                  the theorems at concrete inputs
--
-- How code corresponds to the model. A Go map is the list of its entries, and a loop over it takes
-- them in the order of the list, which is arbitrary. A method that runs under a lock is one step on
-- the record of the variables that the lock guards; so is one that gives it back before it calls
-- the library. What other code decides is data of the model: the numbers of the random source, the
-- answers of the network, the messages and errors of a subscription, the turns of goroutines. The
-- points, failures and signals that a round sends, and what a node acquires and releases, are kept
-- in order as acts. A panic is a value, and so is a call that blocks. The pubsub library, the key
-- library, the decoder of messages and SHA-256 are parameters.
--
-- Fuel: only the loop of GenerateGroups takes fuel, one more than the numbers that the random source
-- has. A round draws at least four of them, so the fuel is never used up before the source is.
--
-- Interleavings. The goroutines that call Listen are the calls of Subscribe that they make, in any
-- order, before the rounds or between any two publications. The instances of a run are a step
-- relation: each has a script of posts, waits and what it does in between, takes the next move of
-- it when it can, and can end early at any point. What the sync service of testground answers is a
-- parameter; IsBarrier in Topology/Instances says what the code relies on, that a wait ends exactly
-- when its name was posted as often as its target says.
--
-- Waits. A call of MustSignalAndWait, MustConfigureNetwork or MustWaitAllInstancesInitialized that
-- does not return panics, also because the 384 seconds of a run are over: an argument, Sync in
-- Topology/Run, says for each which of the two it does. What a run has done before a panic is not
-- kept.
--
-- Not modelled: in readClusters the literal and its decoding, which are parameters; in the topic
-- manager what another method does between the lookup of a topic by Publish or ListPeers and the call
-- of the library, as these two give the lock back; in the runs the log messages, the failures that a
-- goroutine records when Next fails, the seeding of the random source, the pauses of one and two
-- seconds, and what a run has done before it waits for ever; in cmd/gen the reading of the flags; in
-- utils the initialisation of the key library.
pub mod Prelude
pub mod Utils
pub mod Topology
pub mod Gen
mod Tests
